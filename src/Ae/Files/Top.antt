-- ===== src/Ae/Files/Top.antt =====
-- `_max_fd` as the highest descriptor with an event, and the downward search that lowers it.
use aspr1net.Base.{
  ℕ, zero, suc, ◌+◌, lt→ltb, compare_cases, ◌≤◌, ◌<◌, Bool, true, false, not, ◌&&◌, List, none,
  some, ◌≡◌, refl, ok, get_elem?, set, if◌then◌else◌, arith, length, length-set, get_elem?-set,
  get_elem?_of_lt, ◌==◌, Bool-cases, inl, inr,
}
use aspr1net.Base.Int.{ℤ, pos, negsuc, minus_one, ltb_ℤ}
use aspr1net.Ae.Types.{is_none, FileEvent}
use aspr1net.Ae.Files.{highest_below, max_ℤ, lower_max}

-- Some event of the descriptor is waited for.
abbrev pub is_active : List FileEvent → ℕ → Bool
is_active events j = elim (get_elem? events j) [ none ↦ false | some fe ↦ not (is_none fe.mask) ]

-- `_max_fd`, when it is the highest descriptor with an event, or -1 if there is none.
abbrev pub IsTop : ℤ → List FileEvent → Type 0
IsTop (pos n) events = (is_active events n ≡ true) × ((j : ℕ) → n < j → is_active events j ≡ false)
IsTop (negsuc m) events = (m ≡ 0) × ((j : ℕ) → is_active events j ≡ false)

is_active-set :
    (events : List FileEvent) (i j : ℕ) (fe : FileEvent)
    → i < length events
    → is_active (set events i fe) j ≡ (if i == j then not (is_none fe.mask) else is_active events j)
is_active-set events i j fe h = ground (arith, get_elem?-set events i j fe h)

-- An entry that gets a mask raises the top to its descriptor, if that is higher.
pub IsTop-raise :
    (max_fd : ℤ) (events : List FileEvent) (n : ℕ) (fe : FileEvent)
    → n < length events
    → is_none fe.mask ≡ false
    → IsTop max_fd events
    → IsTop (max_ℤ max_fd (pos n)) (set events n fe)
IsTop-raise (pos m) events n fe h some_mask (active, above) =
    elim (Bool-cases (ltb_ℤ (pos m) (pos n))) [
      | inl higher ↦ rw higher (
        ground (arith, is_active-set events n n fe h),
        λ j below. ground (arith, is_active-set events n j fe h, above j),
      )
      | inr lower ↦ rw lower (
        ground (arith, is_active-set events n m fe h),
        λ j below. ground (arith, is_active-set events n j fe h, above j),
      )
    ]
IsTop-raise (negsuc m) events n fe h some_mask (empty, above) =
    rw (lt→ltb 0 (n + suc m) (omega arith)) (
      ground (arith, is_active-set events n n fe h),
      λ j below. ground (arith, is_active-set events n j fe h, above j),
    )

-- The result of the downward search among the first n entries.
abbrev TopBelow : ℕ → ℤ → List FileEvent → Type 0
TopBelow n (pos m) events =
    (m < n) × (is_active events m ≡ true) × ((j : ℕ) → m < j → j < n → is_active events j ≡ false)
TopBelow n (negsuc m) events = (m ≡ 0) × ((j : ℕ) → j < n → is_active events j ≡ false)

TopBelow-step :
    (n : ℕ) (r : ℤ) (events : List FileEvent)
    → is_active events n ≡ false
    → TopBelow n r events
    → TopBelow (suc n) r events
TopBelow-step n (pos m) events off (lt, on, above) =
    (omega arith, on, λ j low high. ground (arith, above j low))
TopBelow-step n (negsuc m) events off (e, above) = (e, λ j high. ground (arith, above j))

highest_below_lem :
    (n : ℕ) (events : List FileEvent)
    → n ≤ length events
    → (r : ℤ) × (highest_below n events ≡ ok r) × TopBelow n r events
unfolding highest_below
highest_below_lem zero events h = (minus_one, refl, (refl, λ j below. elim below [ ]))
highest_below_lem (suc n) events h =
    let (fe, here) = get_elem?_of_lt events n (omega arith) in
    let (r, found, top) = highest_below_lem n events (omega arith) in
    elim (Bool-cases (is_none fe.mask)) [
      | inl off ↦ (
        r,
        ground (arith, here, found, off),
        TopBelow-step n r events (ground (arith, here, off)) top,
      )
      | inr on ↦ (
        pos n,
        ground (arith, here, on),
        (omega arith, ground (arith, here, on), λ j low high. absurd (omega arith)),
      )
    ]

TopBelow-IsTop :
    (n : ℕ) (r : ℤ) (events : List FileEvent)
    → is_active events n ≡ false
    → ((j : ℕ) → n < j → is_active events j ≡ false)
    → TopBelow n r events
    → IsTop r events
TopBelow-IsTop n (pos m) events off above (lt, on, between) = (
  on,
  λ j low. elim (compare_cases j n) [
    | inl below ↦ between j low below
    | inr (inl same) ↦ rw same off
    | inr (inr past) ↦ above j past
  ],
)
TopBelow-IsTop n (negsuc m) events off above (e, below) = (
  e,
  λ j. elim (compare_cases j n) [
    | inl low ↦ below j low
    | inr (inl same) ↦ rw same off
    | inr (inr past) ↦ above j past
  ],
)

-- An entry within the table whose mask goes: the search finds the new top.
pub IsTop-lower :
    (max_fd : ℤ) (events : List FileEvent) (n : ℕ) (old fe : FileEvent)
    → n < length events
    → get_elem? events n ≡ some old
    → (is_none old.mask ≡ true → is_none fe.mask ≡ true)
    → IsTop max_fd events
    → (r : ℤ) × (lower_max max_fd (pos n) fe (set events n fe) ≡ ok r) × IsTop r (set events n fe)
IsTop-lower (pos m) events n old fe h here fewer (active, above) =
    elim (Bool-cases (n == m && is_none fe.mask)) [
      | inl emptied ↦
          let same : n ≡ m = ground arith in
          let searched =
            highest_below_lem m (set events n fe) (omega (arith, length-set events n fe)) in
          (
            searched.0,
            ground (arith, emptied, searched.1),
            TopBelow-IsTop m searched.0 (set events n fe)
                (ground (arith, is_active-set events n m fe h))
                (λ j low. ground (arith, is_active-set events n j fe h, above j low)) searched.2,
          )
      | inr kept ↦ (
        pos m,
        ground (arith, kept),
        (
          ground (arith, is_active-set events n m fe h),
          λ j low. ground (arith, is_active-set events n j fe h, above j low, here, fewer),
        ),
      )
    ]
IsTop-lower (negsuc m) events n old fe h here fewer (e, above) = (
  negsuc m,
  ground arith,
  (e, λ j. ground (arith, is_active-set events n j fe h, above j, above n, here, fewer)),
)
