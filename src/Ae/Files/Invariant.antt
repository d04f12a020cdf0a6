-- ===== src/Ae/Files/Invariant.antt =====
-- What holds of an event loop between any two calls: `_max_fd` is the highest descriptor with a
-- mask, and epoll watches just what the table of file events says.
use aspr1net.Base.{
  ℕ, ◌<◌, true, false, List, Option, none, some, ◌≡◌, ok, get_elem?, set, if◌then◌else◌, ◌∙◌, arith,
  length, length-set, get_elem?-set, get_elem?_of_lt, ◌==◌, Bool-cases, Option-cases, inl, inr,
}
use aspr1net.Base.Int.{ℤ, pos, ltb_ℤ}
use aspr1net.Ae.Types.{Mask, mask_or, mask_without, is_none, FileEvent, EventLoop}
use aspr1net.Ae.Epoll.{
  Kernel, KernelLaws, Interest, interest_of, ctl_add, add_event, mod_event, del_event,
}
use aspr1net.Ae.Files.Top.{IsTop, IsTop-raise, IsTop-lower}
use aspr1net.Ae.Files.{ae_ok, ae_err, merge_event, max_ℤ, watch, add_file_event, del_file_event}

-- What epoll should watch it for.
abbrev pub interest_at : List FileEvent → ℕ → Option Interest
interest_at events j = elim (get_elem? events j) [
  | none ↦ none
  | some fe ↦ if is_none fe.mask then none else some (interest_of fe.mask)
]

pub record WellFormed {W : Type 0} (k : Kernel W) (l : EventLoop W) : Type 0 where
  pub sized : length l.events ≡ l.fdset_size
  pub top : IsTop l.max_fd l.events
  pub watched : (j : ℕ) → k.registered l.world j ≡ interest_at l.events j

interest_at-set :
    (events : List FileEvent) (i j : ℕ) (fe : FileEvent)
    → i < length events
    → interest_at (set events i fe) j ≡ (
        if i == j
        then (if is_none fe.mask then none else some (interest_of fe.mask))
        else interest_at events j)
interest_at-set events i j fe h = ground (arith, get_elem?-set events i j fe h)

-- epoll after `add_file_event` has called it for an entry that it watched before as it should.
watch_lem :
    {W : Type 0} (k : Kernel W) (laws : KernelLaws k) (w : W) (n : ℕ) (fe : FileEvent) (mask : Mask)
    → k.registered w n ≡ (if is_none fe.mask then none else some (interest_of fe.mask))
    → (j : ℕ)
    → k.registered (watch k fe n mask w).0 j ≡ (
        if (watch k fe n mask w).1
        then k.registered w j
        else if n == j
        then some (interest_of (mask_or mask fe.mask))
        else k.registered w j)
unfolding add_event mod_event
watch_lem k laws w n fe mask before j =
    let i = interest_of (mask_or mask fe.mask) in
    elim (Bool-cases (is_none fe.mask)) [
      | inl new ↦ ground (arith, new, laws.ctl_failed ctl_add n i w j, laws.ctl_added n i w j)
      | inr known ↦ ground (arith, known, laws.ctl_modified n i (interest_of fe.mask) w j)
    ]

module _ {W : Type 0} (k : Kernel W) (laws : KernelLaws k) (l : EventLoop W)
    (v : WellFormed k l) where
  -- The entry of a descriptor within the table, and what epoll makes of it.
  entry : (n : ℕ) → n < l.fdset_size → (fe : FileEvent) × (get_elem? l.events n ≡ some fe)
  entry n h = get_elem?_of_lt l.events n (omega (arith, v.sized))

  entry_watched :
      (n : ℕ) (fe : FileEvent)
      → get_elem? l.events n ≡ some fe
      → k.registered l.world n ≡ (if is_none fe.mask then none else some (interest_of fe.mask))
  entry_watched n fe here = ground (arith, v.watched n, here)

  -- What `add_file_event` leaves, when epoll took the descriptor.
  added-WellFormed :
      (n : ℕ) (fe : FileEvent) (mask : Mask) (proc : Option ℕ) (client_data : ℕ)
      → n < l.fdset_size
      → get_elem? l.events n ≡ some fe
      → is_none mask ≡ false
      → (watch k fe n mask l.world).1 ≡ false
      → WellFormed k (record l {
        events = set l.events n (merge_event fe mask proc client_data);
        max_fd = max_ℤ l.max_fd (pos n);
        world = (watch k fe n mask l.world).0;
      })
  added-WellFormed n fe mask proc client_data h here some_mask took =
      let merged = merge_event fe mask proc client_data in
      let inside : n < length l.events = omega (arith, v.sized) in
      record {
        sized = length-set l.events n merged ∙ v.sized;
        top = IsTop-raise l.max_fd l.events n merged inside (ground arith) v.top;
        watched = λ j. ground (
          arith,
          watch_lem k laws l.world n fe mask (entry_watched n fe here) j,
          interest_at-set l.events n j merged inside,
          v.watched j,
          took,
        );
      }

  -- What it leaves when epoll refused it.
  refused-WellFormed :
      (n : ℕ) (fe : FileEvent) (mask : Mask)
      → get_elem? l.events n ≡ some fe
      → (watch k fe n mask l.world).1 ≡ true
      → WellFormed k (record l { world = (watch k fe n mask l.world).0 })
  refused-WellFormed n fe mask here refused = record {
    sized = v.sized;
    top = v.top;
    watched = λ j. ground (
      arith,
      watch_lem k laws l.world n fe mask (entry_watched n fe here) j,
      v.watched j,
      refused,
    );
  }

  -- `add_file_event` with some event to wait for returns, on a well-formed loop, for every descriptor
  -- that is not negative, and leaves the loop well-formed, whether or not it succeeds.
  pub add_file_event-WellFormed :
      (n : ℕ) (mask : Mask) (proc : Option ℕ) (client_data : ℕ)
      → is_none mask ≡ false
      → (after : EventLoop W) × (status : ℤ) × (add_file_event k l (pos n) mask proc client_data
          ≡ ok (after, status))
        × WellFormed k after
  unfolding add_file_event
  add_file_event-WellFormed n mask proc client_data some_mask =
      elim (Bool-cases (ltb_ℤ (pos n) (pos l.fdset_size))) [
        | inr past ↦ (l, ae_err, ground (arith, past), v)
        | inl within ↦ elim (Option-cases l.api_data) [
          | inl closed ↦ (l, ae_err, ground (arith, within, closed), v)
          | inr (s, opened) ↦
              let h : n < l.fdset_size = ground arith in
              let (fe, here) = entry n h in
              elim (Bool-cases (watch k fe n mask l.world).1) [
                | inl refused ↦ (
                  record l { world = (watch k fe n mask l.world).0 },
                  ae_err,
                  ground (arith, within, opened, here, refused),
                  refused-WellFormed n fe mask here refused,
                )
                | inr took ↦ (
                  record l {
                    events = set l.events n (merge_event fe mask proc client_data);
                    max_fd = max_ℤ l.max_fd (pos n);
                    world = (watch k fe n mask l.world).0;
                  },
                  ae_ok,
                  ground (arith, within, opened, here, took),
                  added-WellFormed n fe mask proc client_data h here some_mask took,
                )
              ]
        ]
      ]

  -- epoll after `del_file_event`.
  abbrev unwatched : FileEvent → ℕ → Mask → W
  unwatched fe n del_mask =
      let mask = mask_without fe.mask del_mask in
      if is_none mask then del_event k n mask l.world else mod_event k n mask l.world

  unwatched_lem :
      (n : ℕ) (fe : FileEvent) (del_mask : Mask) (j : ℕ)
      → get_elem? l.events n ≡ some fe
      → k.registered (unwatched fe n del_mask) j ≡ (
          if n == j
          then (if is_none (mask_without fe.mask del_mask)
              then none
              else some (interest_of (mask_without fe.mask del_mask)))
          else k.registered l.world j)
  unfolding del_event mod_event
  unwatched_lem n fe del_mask j here =
      let i = interest_of (mask_without fe.mask del_mask) in
      ground (
        arith,
        laws.ctl_deleted n i l.world j,
        laws.ctl_modified n i (interest_of fe.mask) l.world j,
        entry_watched n fe here,
      )

  -- `del_file_event` returns, on a well-formed loop, for every descriptor that is not negative, and
  -- leaves the loop well-formed.
  pub del_file_event-WellFormed :
      (n : ℕ) (del_mask : Mask)
      → (after : EventLoop W) × (del_file_event k l (pos n) del_mask ≡ ok after)
        × WellFormed k after
  unfolding del_file_event
  del_file_event-WellFormed n del_mask = elim (Bool-cases (ltb_ℤ (pos n) (pos l.fdset_size))) [
    | inr past ↦ (l, ground (arith, past), v)
    | inl within ↦ elim (Option-cases l.api_data) [
      | inl closed ↦ (l, ground (arith, within, closed), v)
      | inr (s, opened) ↦
          let h : n < l.fdset_size = ground arith in
          let (fe, here) = entry n h in
          let left = record fe { mask = mask_without fe.mask del_mask } in
          let inside : n < length l.events = omega (arith, v.sized) in
          let (max_fd, found, top) =
            IsTop-lower l.max_fd l.events n fe left inside here (λ off. ground arith) v.top in
          (
            record l {
              events = set l.events n left;
              max_fd = max_fd;
              world = unwatched fe n del_mask;
            },
            ground (arith, within, opened, here, found),
            record {
              sized = length-set l.events n left ∙ v.sized;
              top = top;
              watched = λ j. ground (
                arith,
                unwatched_lem n fe del_mask j here,
                interest_at-set l.events n j left inside,
                v.watched j,
              );
            },
          )
    ]
  ]
