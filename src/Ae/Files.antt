-- ===== src/Ae/Files.antt =====
-- `add_file_event`, `del_file_event` and `get_file_event` of ae.cpp.
pub mod Top
pub mod Invariant
pub mod Effects
use aspr1net.Base.{
  ℕ, zero, suc, Bool, true, false, not, ◌&&◌, ◌||◌, List, [], ◌∷◌, Option, none, some, ◌≡◌, Result,
  ok, err, out_of_bounds, get_elem?, set, if◌then◌else◌, ◌>>=◌,
}
use aspr1net.Base.Int.{ℤ, pos, negsuc, minus_one, ltb_ℤ, eqb_ℤ}
use aspr1net.Ae.Types.{
  Mask, ae_none, mask_or, mask_without, is_none, FileEvent, EventLoop, EpollState, at_index,
  read_event,
}
use aspr1net.Ae.Epoll.{Kernel, add_event, mod_event, del_event}

abbrev pub ae_ok : ℤ
ae_ok = pos 0

abbrev pub ae_err : ℤ
ae_err = minus_one

-- The descriptor as an index of the table.
abbrev pub index_of : ℤ → ℕ
index_of (pos n) = n
index_of (negsuc n) = 0

-- What `add_file_event` makes of the entry.
abbrev pub merge_event : FileEvent → Mask → Option ℕ → ℕ → FileEvent
merge_event fe mask proc client_data = record {
  mask = mask_or fe.mask mask;
  r_proc = if mask.readable then proc else fe.r_proc;
  w_proc = if mask.writable then proc else fe.w_proc;
  client_data = client_data;
}

-- `for (i = _max_fd - 1; i >= 0; --i) if (_events[i]._mask != AE_NONE) break;`, and then `i`.
unfoldable pub highest_below : ℕ → List FileEvent → Result ℤ
highest_below zero events = ok minus_one
highest_below (suc i) events =
    let below = highest_below i events in
    do fe ← at_index (get_elem? events i); if is_none fe.mask then below else ok (pos i)

-- `std::max(_max_fd, _fd)`.
abbrev pub max_ℤ : ℤ → ℤ → ℤ
max_ℤ a b = if ltb_ℤ a b then b else a

-- `_max_fd` after the entry of a descriptor has become `fe`.
abbrev pub lower_max : ℤ → ℤ → FileEvent → List FileEvent → Result ℤ
lower_max max_fd fd fe events =
    if eqb_ℤ fd max_fd && is_none fe.mask then highest_below (index_of max_fd) events else ok max_fd

module _ {W : Type 0} (k : Kernel W) where
  -- epoll's part of `add_file_event`: the flag says that it failed.
  abbrev pub watch : FileEvent → ℕ → Mask → W → W × Bool
  watch fe fd mask w =
      if is_none fe.mask
      then add_event k fd (mask_or mask fe.mask) w
      else (mod_event k fd (mask_or mask fe.mask) w, false)

  unfoldable pub add_file_event : EventLoop W → ℤ → Mask → Option ℕ → ℕ → Result (EventLoop W × ℤ)
  add_file_event l fd mask proc client_data =
      if not (ltb_ℤ fd (pos l.fdset_size)) then ok (l, ae_err) else elim l.api_data [
        | none ↦ ok (l, ae_err)
        | some s ↦ (do
          fe ← read_event l.events fd
          let (w, failed) = watch fe (index_of fd) mask l.world
          let events = set l.events (index_of fd) (merge_event fe mask proc client_data)
          let added = record l { events = events; max_fd = max_ℤ l.max_fd fd; world = w }
          if failed then ok (record l { world = w }, ae_err) else ok (added, ae_ok))
      ]

  unfoldable pub del_file_event : EventLoop W → ℤ → Mask → Result (EventLoop W)
  del_file_event l fd del_mask =
      if not (ltb_ℤ fd (pos l.fdset_size)) then ok l else elim l.api_data [
        | none ↦ ok l
        | some s ↦ (do
          fe ← read_event l.events fd
          let mask = mask_without fe.mask del_mask
          let deleted = del_event k (index_of fd) mask l.world
          let modified = mod_event k (index_of fd) mask l.world
          let left = record fe { mask = mask }
          let events = set l.events (index_of fd) left
          max_fd ← lower_max l.max_fd fd left events
          ok (record l {
            events = events;
            max_fd = max_fd;
            world = if is_none mask then deleted else modified;
          }))
      ]

-- `get_file_event`: the mask of the entry, or 0 past the end of the table.
unfoldable pub get_file_event : {W : Type 0} → EventLoop W → ℤ → Result Mask
get_file_event l fd =
    if not (ltb_ℤ fd (pos l.fdset_size))
    then ok ae_none
    else (do fe ← read_event l.events fd; ok fe.mask)
