-- ===== src/Server/Removal.antt =====
-- What `del_file_event` leaves of the cells of the table.
use aspr1net.Base.{
  ℕ, zero, suc, ◌<◌, true, false, ◌==◌, List, Option, none, some, ◌≡◌, inl, inr, refl, sym, ap, ◌∙◌,
  subst, arith, ok, ◌>>=◌, if◌then◌else◌, length, get_elem?, set, get_elem?-set, get_elem?_past,
  get_elem?_of_lt, length-set, Sure, Clean, bind-Sure, if-Sure, fails, gives, Bool-cases,
}
use aspr1net.Base.Int.{ℤ, pos, ltb_ℤ}
use aspr1net.Ae.Types.{Mask, mask_without, is_none, FileEvent, EpollState, EventLoop, at_index}
use aspr1net.Ae.Epoll.{Kernel, mod_event, del_event}
use aspr1net.Ae.Files.{highest_below, lower_max, del_file_event, index_of}
use aspr1net.Server.Handlers.{World, lifted}

highest_below-Clean : (n : ℕ) (events : List FileEvent) → Clean (highest_below n events)
unfolding highest_below
highest_below-Clean zero events = gives tt
highest_below-Clean (suc i) events =
    bind-Sure (at_index-Clean (get_elem? events i))
      (λ fe h. if-Sure _ (highest_below-Clean i events) (gives tt))
  where
    at_index-Clean : {V : Type 0} (v : Option V) → Clean (at_index v)
    at_index-Clean none = fails tt
    at_index-Clean (some v) = gives tt

lower_max-Clean :
    (a b : ℤ) (fe : FileEvent) (events : List FileEvent) → Clean (lower_max a b fe events)
lower_max-Clean a b fe events = if-Sure _ (highest_below-Clean (index_of a) events) (gives tt)

-- A cell without some events.
abbrev pub without : Mask → Option FileEvent → Option FileEvent
without mask none = none
without mask (some fe) = some (record fe { mask = mask_without fe.mask mask })

-- What `del_file_event` leaves: the cell of the descriptor without the events, and the rest.
pub record Removed {W F : Type 0} (l : EventLoop (World W F)) (n : ℕ) (mask : Mask)
    (after : EventLoop (World W F)) : Type 0 where
  pub same_sessions : after.world.sessions ≡ l.world.sessions
  pub same_api : after.api_data ≡ l.api_data
  pub sized : length after.events ≡ after.fdset_size
  pub cells :
      (j : ℕ)
      → get_elem? after.events j
        ≡ (if n == j then without mask (get_elem? l.events j) else get_elem? l.events j)

module _ {W F : Type 0} (k : Kernel W) (l : EventLoop (World W F)) (n : ℕ) (mask : Mask) where
  -- The loop when the cell of the descriptor has lost the events.
  removed : FileEvent → ℤ → EventLoop (World W F)
  removed fe max_fd =
      let left = mask_without fe.mask mask in
      record l {
        events = set l.events n (record fe { mask = left });
        max_fd = max_fd;
        world =
            if is_none left
            then del_event (lifted k) n left l.world
            else mod_event (lifted k) n left l.world;
      }

  removed-Removed :
      (fe : FileEvent) (max_fd : ℤ)
      → get_elem? l.events n ≡ some fe
      → n < length l.events
      → length l.events ≡ l.fdset_size
      → Removed l n mask (removed fe max_fd)
  unfolding removed mod_event del_event
  removed-Removed fe max_fd here h sized =
      let left = record fe { mask = mask_without fe.mask mask } in
      record {
        same_sessions = ground arith;
        same_api = refl;
        sized = length-set l.events n left ∙ sized;
        cells = λ j. elim (Bool-cases (n == j)) [
          | inl same ↦
              let j_is : n ≡ j = ground arith in
              let there : get_elem? l.events j ≡ some fe =
                ap (get_elem? l.events) (sym j_is) ∙ here in
              ground (arith, there, same, get_elem?-set l.events n j left h)
          | inr other ↦ ground (arith, other, get_elem?-set l.events n j left h)
        ];
      }

  del_steps :
      (st : EpollState) (fe : FileEvent)
      → ltb_ℤ (pos n) (pos l.fdset_size) ≡ true
      → l.api_data ≡ some st
      → get_elem? l.events n ≡ some fe
      → del_file_event (lifted k) l (pos n) mask ≡ (
          lower_max l.max_fd
            (pos n)
            (record fe { mask = mask_without fe.mask mask })
            (set l.events n (record fe { mask = mask_without fe.mask mask }))
          >>= λ max_fd. ok (removed fe max_fd))
  unfolding del_file_event removed
  del_steps st fe within opened here = ground (arith, within, opened, here)

  del_past :
      ltb_ℤ (pos n) (pos l.fdset_size) ≡ false → del_file_event (lifted k) l (pos n) mask ≡ ok l
  unfolding del_file_event
  del_past past = ground (arith, past)

  pub del_file_event-Removed :
      (st : EpollState)
      → l.api_data ≡ some st
      → length l.events ≡ l.fdset_size
      → Sure (Removed l n mask) (del_file_event (lifted k) l (pos n) mask)
  del_file_event-Removed st opened sized = elim (Bool-cases (ltb_ℤ (pos n) (pos l.fdset_size))) [
    | inr past ↦
        let outside : get_elem? l.events n ≡ none =
          get_elem?_past l.events n (ground (arith, past, sized)) in
        subst (Sure (Removed l n mask)) (sym (del_past past)) (
          gives (record {
            same_sessions = refl;
            same_api = refl;
            sized = sized;
            cells = λ j. elim (Bool-cases (n == j)) [
              | inl same ↦
                  let j_is : n ≡ j = ground arith in
                  let none_there : get_elem? l.events j ≡ none =
                    ap (get_elem? l.events) (sym j_is) ∙ outside in
                  ground (arith, none_there, same)
              | inr other ↦ ground (arith, other)
            ];
          }))
    | inl within ↦
        let h : n < length l.events = ground (arith, sized) in
        let (fe, here) = get_elem?_of_lt l.events n h in
        let left = record fe { mask = mask_without fe.mask mask } in
        subst (Sure (Removed l n mask)) (sym (del_steps st fe within opened here)) (
          bind-Sure (lower_max-Clean l.max_fd (pos n) left (set l.events n left))
            (λ max_fd h'. gives (removed-Removed fe max_fd here h sized)))
  ]
