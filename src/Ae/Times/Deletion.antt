-- ===== src/Ae/Times/Deletion.antt =====
-- `del_time_event` against the ids that `add_time_event` gives.
use aspr1net.Base.{
  ℕ, ◌+◌, ◌<◌, ◌≤◌, List, [], ◌∷◌, Option, none, some, ok, ◌≡◌, refl, subst, arith, if◌then◌else◌,
  Bool-cases, inl, inr, ◌⊎◌, Bool, true, false, ◌||◌, ◌==◌, compare_cases,
}
use aspr1net.Base.Int.{ℤ, pos, minus_one, eqb_ℤ}
use aspr1net.Ae.Types.{TimeEvent, EventLoop}
use aspr1net.Ae.Epoll.{Kernel}
use aspr1net.Ae.Times.{ae_deleted_event_id, mark_deleted, del_time_event, add_time_event}
use aspr1net.Ae.Times.Clock.{add_time_event_lem}

-- Some event of the list has the id.
abbrev pub has_id : ℤ → List TimeEvent → Bool
has_id id [] = false
has_id id (te ∷ rest) = eqb_ℤ te.id id || has_id id rest

-- No two events share an id, but for the deleted one, and the ids lie below the next one.
abbrev pub IdsBelow : ℕ → List TimeEvent → Type 0
IdsBelow n [] = Unit
IdsBelow n (te ∷ rest) =
    ((te.id ≡ ae_deleted_event_id)
      ⊎ ((i : ℕ) × (te.id ≡ pos i) × (i < n) × (has_id (pos i) rest ≡ false)))
    × IdsBelow n rest

abbrev MarkedIds : ℤ → Option (List TimeEvent) → List TimeEvent → Type 0
MarkedIds id none old = has_id id old ≡ false
MarkedIds id (some new) old =
    (has_id id old ≡ true)
    × ((j : ℕ) → has_id (pos j) new ≡ (if eqb_ℤ (pos j) id then false else has_id (pos j) old))

-- An id that is not in use yet is not in the list.
IdsBelow-fresh :
    (n i : ℕ) (old : List TimeEvent) → IdsBelow n old → n ≤ i → has_id (pos i) old ≡ false
IdsBelow-fresh n i [] v h = refl
IdsBelow-fresh n i (te ∷ rest) (inl gone, vs) h = ground (arith, IdsBelow-fresh n i rest vs h)
IdsBelow-fresh n i (te ∷ rest) (inr (m, e, lt, new), vs) h =
    ground (arith, IdsBelow-fresh n i rest vs h)

IdsBelow-head :
    (n : ℕ) (te : TimeEvent) (rest : List TimeEvent) (i : ℕ)
    → IdsBelow n (te ∷ rest)
    → eqb_ℤ te.id (pos i) ≡ true
    → has_id (pos i) rest ≡ false
IdsBelow-head n te rest i (inl gone, vs) hit = ground arith
IdsBelow-head n te rest i (inr (m, e, lt, new), vs) hit =
    let same : m ≡ i = ground arith in subst (λ j. has_id (pos j) rest ≡ false) same new

abbrev keep_head : TimeEvent → Option (List TimeEvent) → Option (List TimeEvent)
keep_head te found = elim found [ none ↦ none | some marked ↦ some (te ∷ marked) ]

mark_later :
    (i : ℕ) (te : TimeEvent) (rest : List TimeEvent) (found : Option (List TimeEvent))
    → eqb_ℤ te.id (pos i) ≡ false
    → MarkedIds (pos i) found rest
    → MarkedIds (pos i) (keep_head te found) (te ∷ rest)
mark_later i te rest none miss m = ground arith
mark_later i te rest (some marked) miss (had, m) = (ground arith, λ j. ground (arith, m j))

mark_deleted_lem :
    (n i : ℕ) (old : List TimeEvent)
    → IdsBelow n old
    → MarkedIds (pos i) (mark_deleted (pos i) old) old
unfolding mark_deleted
mark_deleted_lem n i [] v = refl
mark_deleted_lem n i (te ∷ rest) v = elim (Bool-cases (eqb_ℤ te.id (pos i))) [
  | inl hit ↦ rw hit (ground (arith, hit), λ j. ground (arith, IdsBelow-head n te rest i v hit))
  | inr miss ↦
      rw miss
        (mark_later i te rest (mark_deleted (pos i) rest) miss (mark_deleted_lem n i rest v.1))
]

abbrev KeptIds : ℕ → Option (List TimeEvent) → Type 0
KeptIds n none = Unit
KeptIds n (some new) = IdsBelow n new

keep_later :
    (n i : ℕ) (te : TimeEvent) (rest : List TimeEvent) (found : Option (List TimeEvent))
    → (te.id ≡ ae_deleted_event_id)
      ⊎ ((m : ℕ) × (te.id ≡ pos m) × (m < n) × (has_id (pos m) rest ≡ false))
    → MarkedIds (pos i) found rest
    → KeptIds n found
    → KeptIds n (keep_head te found)
keep_later n i te rest none h m ids = tt
keep_later n i te rest (some marked) (inl gone) m ids = (inl gone, ids)
keep_later n i te rest (some marked) (inr (j, e, lt, new)) m ids =
    (inr (j, e, lt, ground (arith, m.1 j, new)), ids)

mark_deleted-IdsBelow :
    (n i : ℕ) (old : List TimeEvent) → IdsBelow n old → KeptIds n (mark_deleted (pos i) old)
unfolding mark_deleted
mark_deleted-IdsBelow n i [] v = tt
mark_deleted-IdsBelow n i (te ∷ rest) v = elim (Bool-cases (eqb_ℤ te.id (pos i))) [
  | inl hit ↦ rw hit (inl refl, v.1)
  | inr miss ↦ rw miss (
      keep_later n i te rest (mark_deleted (pos i) rest) v.0 (mark_deleted_lem n i rest v.1)
        (mark_deleted-IdsBelow n i rest v.1))
]

abbrev outcome : {W : Type 0} → EventLoop W → Option (List TimeEvent) → EventLoop W × ℤ
outcome l found = elim found [
  | none ↦ (l, minus_one)
  | some marked ↦ (record l { time_event_list = marked }, pos 0)
]

-- The id `i` is gone, and with it no other.
abbrev pub Deletes : {W : Type 0} → EventLoop W → ℕ → EventLoop W × ℤ → Type 0
Deletes l i (after, status) =
    (status ≡ (if has_id (pos i) l.time_event_list then pos 0 else minus_one))
    × ((j : ℕ)
        → has_id (pos j) after.time_event_list
          ≡ (if j == i then false else has_id (pos j) l.time_event_list))
    × IdsBelow after.time_event_next_id after.time_event_list

outcome-Deletes :
    {W : Type 0} (l : EventLoop W) (i : ℕ) (found : Option (List TimeEvent))
    → IdsBelow l.time_event_next_id l.time_event_list
    → MarkedIds (pos i) found l.time_event_list
    → KeptIds l.time_event_next_id found
    → Deletes l i (outcome l found)
outcome-Deletes l i none v m ids = (ground (arith, m), (λ j. absent j (compare_cases j i)), v)
  where
    absent :
        (j : ℕ)
        → (j < i) ⊎ ((j ≡ i) ⊎ (i < j))
        → has_id (pos j) l.time_event_list
          ≡ (if j == i then false else has_id (pos j) l.time_event_list)
    absent j (inl low) = ground (arith, low)
    absent j (inr (inl same)) = rw same (ground (arith, m))
    absent j (inr (inr high)) = ground (arith, high)
outcome-Deletes l i (some marked) v (had, m) ids =
    (ground (arith, had), (λ j. ground (arith, m j)), ids)

-- `del_time_event` with an id that was given: it succeeds exactly if an event has that id, and then
-- no event has it any more, while the other ids stay. So the same call made again fails.
pub del_time_event-Deletes :
    {W : Type 0} (l : EventLoop W) (i : ℕ)
    → IdsBelow l.time_event_next_id l.time_event_list
    → Deletes l i (del_time_event l (pos i))
unfolding del_time_event
del_time_event-Deletes l i v =
    outcome-Deletes l i (mark_deleted (pos i) l.time_event_list) v
      (mark_deleted_lem l.time_event_next_id i l.time_event_list v)
      (mark_deleted-IdsBelow l.time_event_next_id i l.time_event_list v)

IdsBelow-mono : (n : ℕ) (old : List TimeEvent) → IdsBelow n old → IdsBelow (n + 1) old
IdsBelow-mono n [] v = tt
IdsBelow-mono n (te ∷ rest) (inl gone, vs) = (inl gone, IdsBelow-mono n rest vs)
IdsBelow-mono n (te ∷ rest) (inr (m, e, lt, new), vs) =
    (inr (m, e, omega arith, new), IdsBelow-mono n rest vs)

-- `add_time_event` with a delay that is not negative gives an id that no event has, and keeps the
-- ids apart.
pub add_time_event-IdsBelow :
    {W : Type 0} (k : Kernel W) (l : EventLoop W) (delay : ℕ) (proc : Option ℕ) (client_data : ℕ)
    (timeup_proc : Option ℕ)
    → IdsBelow l.time_event_next_id l.time_event_list
    → (after : EventLoop W) × (id : ℤ) × (add_time_event k l
          (pos delay)
          proc
          client_data
          timeup_proc
        ≡ ok (after, id))
      × (has_id id l.time_event_list ≡ false)
      × (has_id id after.time_event_list ≡ true)
      × IdsBelow after.time_event_next_id after.time_event_list
add_time_event-IdsBelow k l delay proc client_data timeup_proc v =
    let n = l.time_event_next_id in
    let fresh = IdsBelow-fresh n n l.time_event_list v (omega arith) in
    (
      _,
      pos n,
      add_time_event_lem k l delay proc client_data timeup_proc,
      fresh,
      ground arith,
      (inr (n, refl, omega arith, fresh), IdsBelow-mono n l.time_event_list v),
    )
