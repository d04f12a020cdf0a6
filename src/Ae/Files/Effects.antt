-- ===== src/Ae/Files/Effects.antt =====
-- What `add_file_event` and `del_file_event` do to the masks, and the descriptors that they must not
-- be given.
use aspr1net.Base.{
  ℕ, ◌<◌, ◌&&◌, Option, some, ◌≡◌, refl, ok, err, out_of_bounds, get_elem?, set, if◌then◌else◌,
  ◌==◌, arith, length, get_elem?-set, Bool-cases, Option-cases, inl, inr, ltb, get_elem?_of_lt,
}
use aspr1net.Base.Int.{ℤ, pos, negsuc, ltb_ℤ, eqb_ℤ}
use aspr1net.Ae.Types.{Mask, mask_or, mask_without, FileEvent, EventLoop, EpollState}
use aspr1net.Ae.Epoll.{Kernel}
use aspr1net.Ae.Files.{
  ae_ok, ae_err, merge_event, max_ℤ, watch, add_file_event, del_file_event, get_file_event,
}

-- A negative descriptor passes the guard of each of the three, and indexes the table below its
-- start: -1 from a failed `anetTcpServer`, for one.
pub negative_descriptor :
    {W : Type 0} (k : Kernel W) (l : EventLoop W) (m : ℕ) (mask : Mask) (proc : Option ℕ)
    (client_data : ℕ) {s : EpollState}
    → l.api_data ≡ some s
    → (add_file_event k l (negsuc m) mask proc client_data ≡ err out_of_bounds)
      × (del_file_event k l (negsuc m) mask ≡ err out_of_bounds)
      × (get_file_event l (negsuc m) ≡ err out_of_bounds)
unfolding add_file_event del_file_event get_file_event
negative_descriptor k l m mask proc client_data opened = ground arith

module _ {W : Type 0} (l : EventLoop W) (sized : length l.events ≡ l.fdset_size) where
  -- The masks of a loop whose entry of n was written over.
  get_file_event-set :
      (n j : ℕ) (fe : FileEvent) (max_fd : ℤ) (w : W)
      → n < l.fdset_size
      → get_file_event (record l { events = set l.events n fe; max_fd = max_fd; world = w }) (pos j)
        ≡ (if n == j then ok fe.mask else get_file_event l (pos j))
  unfolding get_file_event
  get_file_event-set n j fe max_fd w h =
      let inside : n < length l.events = omega arith in
      ground (arith, get_elem?-set l.events n j fe inside)

  entry_mask :
      (n : ℕ) (fe : FileEvent) {old : Mask}
      → n < l.fdset_size
      → get_elem? l.events n ≡ some fe
      → get_file_event l (pos n) ≡ ok old
      → old ≡ fe.mask
  unfolding get_file_event
  entry_mask n fe h here before = ground (arith, h, here, before)

module _ {W : Type 0} (k : Kernel W) (l : EventLoop W)
    (sized : length l.events ≡ l.fdset_size) where
  -- `add_file_event` returns for a descriptor whose mask can be asked for, if the table has its size.
  -- If it succeeds, the mask of the descriptor has the new bits beside
  -- the old ones, and every other mask is as it was; if it is refused, all masks are.
  pub get_file_event-add_file_event :
      (n : ℕ) (mask : Mask) (proc : Option ℕ) (client_data : ℕ) {old : Mask}
      → get_file_event l (pos n) ≡ ok old
      → (after : EventLoop W) × (status : ℤ) × (add_file_event k l (pos n) mask proc client_data
          ≡ ok (after, status))
        × ((j : ℕ)
            → get_file_event after (pos j) ≡ (
                if eqb_ℤ status ae_ok && n == j
                then ok (mask_or old mask)
                else get_file_event l (pos j)))
  unfolding add_file_event
  get_file_event-add_file_event n mask proc client_data {old} before =
      elim (Bool-cases (ltb_ℤ (pos n) (pos l.fdset_size))) [
        | inr past ↦ (l, ae_err, ground (arith, past), λ j. refl)
        | inl within ↦ elim (Option-cases l.api_data) [
          | inl closed ↦ (l, ae_err, ground (arith, within, closed), λ j. refl)
          | inr (s, opened) ↦
              let h : n < l.fdset_size = ground arith in
              let (fe, here) = get_elem?_of_lt l.events n (omega arith) in
              elim (Bool-cases (watch k fe n mask l.world).1) [
                | inl refused ↦ (
                  record l { world = (watch k fe n mask l.world).0 },
                  ae_err,
                  ground (arith, within, opened, here, refused),
                  λ j. unfold get_file_event in refl,
                )
                | inr took ↦
                    let merged = merge_event fe mask proc client_data in
                    let max_fd = max_ℤ l.max_fd (pos n) in
                    let w = (watch k fe n mask l.world).0 in
                    (
                      record l { events = set l.events n merged; max_fd = max_fd; world = w },
                      ae_ok,
                      ground (arith, within, opened, here, took),
                      λ j.
                          rw (entry_mask l sized n fe h here before)
                            (get_file_event-set l sized n j merged max_fd w h),
                    )
              ]
        ]
      ]

  -- After a `del_file_event` that returns, with epoll opened and a table of its size, the mask of the descriptor has lost the given bits, and every other mask
  -- is as it was.
  pub get_file_event-del_file_event :
      (n j : ℕ) (mask : Mask) {after : EventLoop W} {old : Mask} {s : EpollState}
      → l.api_data ≡ some s
      → get_file_event l (pos n) ≡ ok old
      → del_file_event k l (pos n) mask ≡ ok after
      → get_file_event after (pos j)
        ≡ (if n == j then ok (mask_without old mask) else get_file_event l (pos j))
  unfolding del_file_event get_file_event
  get_file_event-del_file_event n j mask {after} {old} opened before deleted =
      elim (Bool-cases (ltb n l.fdset_size)) [
        | inr past ↦ ground (arith, past, opened, before, deleted)
        | inl within ↦
            let inside : n < length l.events = ground arith in
            let (fe, here) = get_elem?_of_lt l.events n inside in
            let left = record fe { mask = mask_without fe.mask mask } in
            let cell = get_elem?-set l.events n j left inside in
            ground (arith, within, here, cell, opened, before, deleted)
      ]
