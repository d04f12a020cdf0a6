-- ===== src/Server/Pointers.antt =====
-- The addresses that the table of events holds: each entry that is watched is for accepting, or has
-- the address of a session that lives and has its descriptor.
use aspr1net.Base.{
  ℕ, ◌<◌, true, false, ◌==◌, List, Option, some, ◌≡◌, ◌⊎◌, inl, inr, refl, sym, ◌∙◌, subst, arith,
  ok, length, get_elem?, set, get_elem?-set, get_elem?_of_lt, length-set, Bool-cases,
}
use aspr1net.Base.Int.{ℤ, pos, ltb_ℤ}
use aspr1net.Ae.Types.{Mask, is_none, FileEvent, EpollState, EventLoop}
use aspr1net.Ae.Epoll.{Kernel, add_event, mod_event}
use aspr1net.Ae.Files.{ae_ok, ae_err, merge_event, watch, add_file_event, max_ℤ}
use aspr1net.Server.{Session}
use aspr1net.Server.Handlers.{World, lifted, accept_proc}

-- The session at the address lives, and its descriptor is the one given.
abbrev pub Points : List (Option Session) → ℕ → ℕ → Type 0
Points sessions n address =
    (s : Session) × (get_elem? sessions address ≡ some (some s))
    × (s.fd ≡ pos n)
    × (s.has_loop ≡ true)

abbrev pub OnlyAccepts : FileEvent → Type 0
OnlyAccepts fe = (fe.mask.writable ≡ false) × (fe.r_proc ≡ some accept_proc)

abbrev pub IsSound : List (Option Session) → ℕ → FileEvent → Type 0
IsSound sessions n fe = is_none fe.mask ≡ false → OnlyAccepts fe ⊎ Points sessions n fe.client_data

-- epoll is open, the table has its size, and each entry that is watched is sound.
pub record Sound {W F : Type 0} (l : EventLoop (World W F)) : Type 0 where
  pub opened : (st : EpollState) × (l.api_data ≡ some st)
  pub sized : length l.events ≡ l.fdset_size
  pub entries :
      (n : ℕ) (fe : FileEvent) → get_elem? l.events n ≡ some fe → IsSound l.world.sessions n fe

watch-sessions :
    {W F : Type 0} (k : Kernel W) (fe : FileEvent) (n : ℕ) (mask : Mask) (w : World W F)
    → (watch (lifted k) fe n mask w).0.sessions ≡ w.sessions
unfolding add_event mod_event
watch-sessions k fe n mask w = ground arith

module _ {W F : Type 0} (k : Kernel W) (l : EventLoop (World W F)) (v : Sound l) where
  -- `add_file_event` that makes a sound entry.
  pub add_file_event-IsSound :
      (n : ℕ) (mask : Mask) (proc : Option ℕ) (address : ℕ)
      → ((fe : FileEvent)
          → get_elem? l.events n ≡ some fe
          → IsSound l.world.sessions n (merge_event fe mask proc address))
      → (after : EventLoop (World W F)) × (status : ℤ) × (add_file_event
            (lifted k)
            l
            (pos n)
            mask
            proc
            address
          ≡ ok (after, status))
        × Sound after
        × (after.world.sessions ≡ l.world.sessions)
  unfolding add_file_event
  add_file_event-IsSound n mask proc address sound =
      elim (Bool-cases (ltb_ℤ (pos n) (pos l.fdset_size))) [
        | inr past ↦ (l, ae_err, ground (arith, past), v, refl)
        | inl within ↦
            let (st, opened) = v.opened in
            let h : n < length l.events = ground (arith, v.sized) in
            let (fe, here) = get_elem?_of_lt l.events n h in
            let same = watch-sessions k fe n mask l.world in
            let w = (watch (lifted k) fe n mask l.world).0 in
            let merged = merge_event fe mask proc address in
            elim (Bool-cases (watch (lifted k) fe n mask l.world).1) [
              | inl refused ↦ (
                record l { world = w },
                ae_err,
                ground (arith, within, opened, here, refused),
                record {
                  opened = v.opened;
                  sized = v.sized;
                  entries = λ j e at. subst (λ ss. IsSound ss j e) (sym same) (v.entries j e at);
                },
                same,
              )
              | inr took ↦ (
                record l {
                  events = set l.events n merged;
                  max_fd = max_ℤ l.max_fd (pos n);
                  world = w;
                },
                ae_ok,
                ground (arith, within, opened, here, took),
                record {
                  opened = v.opened;
                  sized = length-set l.events n merged ∙ v.sized;
                  entries = λ j e at.
                      subst (λ ss. IsSound ss j e) (sym same)
                        (cell n merged (sound fe here) h j e at);
                },
                same,
              )
            ]
      ]
    where
      cell :
          (n : ℕ) (fe : FileEvent)
          → IsSound l.world.sessions n fe
          → n < length l.events
          → (j : ℕ) (e : FileEvent) → get_elem? (set l.events n fe) j ≡ some e
          → IsSound l.world.sessions j e
      cell n fe new h j e at = elim (Bool-cases (n == j)) [
        | inl same ↦
            let j_is : n ≡ j = ground arith in
            let e_is : fe ≡ e = ground (arith, at, get_elem?-set l.events n j fe h, same) in
            subst (λ x. IsSound l.world.sessions x e) j_is
              (subst (IsSound l.world.sessions n) e_is new)
        | inr other ↦ v.entries j e (ground (arith, at, get_elem?-set l.events n j fe h, other))
      ]

  -- With the address of a session that has the descriptor.
  pub add_file_event-Sound :
      (n : ℕ) (mask : Mask) (proc : Option ℕ) (address : ℕ)
      → Points l.world.sessions n address
      → (after : EventLoop (World W F)) × (status : ℤ) × (add_file_event
            (lifted k)
            l
            (pos n)
            mask
            proc
            address
          ≡ ok (after, status))
        × Sound after
        × (after.world.sessions ≡ l.world.sessions)
  add_file_event-Sound n mask proc address points =
      add_file_event-IsSound n mask proc address (λ fe here watched. inr points)
