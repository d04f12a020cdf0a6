-- ===== src/Server/Deletion.antt =====
-- A session that is deleted leaves no entry with its address.
use aspr1net.Base.{
  ℕ, true, false, ◌==◌, List, Option, none, some, ◌≡◌, inl, inr, refl, sym, ap, ◌∙◌, subst, arith,
  get_elem?, set, get_elem?-set_ne, Sure, bind-Sure, gives, Bool-cases,
}
use aspr1net.Base.Int.{pos}
use aspr1net.Ae.Types.{Mask, mask_without, is_none, ae_readable, ae_writable, FileEvent, EventLoop}
use aspr1net.Ae.Epoll.{Kernel}
use aspr1net.Anet.{Os}
use aspr1net.Server.{Session}
use aspr1net.Server.Handlers.{World, put_session, with_system, delete_session}
use aspr1net.Server.Clean.{SameEnds}
use aspr1net.Server.Lines.{Lives-put, session_at-Lives}
use aspr1net.Server.Pointers.{Points, IsSound, Sound}
use aspr1net.Server.Removal.{Removed, del_file_event-Removed}

-- An entry that lost some events is as sound as it was.
without-IsSound :
    (sessions : List (Option Session)) (n : ℕ) (mask : Mask) (fe : FileEvent)
    → IsSound sessions n fe
    → IsSound sessions n (record fe { mask = mask_without fe.mask mask })
without-IsSound sessions n mask fe sound watched = elim (sound (ground (arith, watched))) [
  | inl (quiet, accepts) ↦ inl (ground (arith, quiet), accepts)
  | inr points ↦ inr points
]

module _ {W F : Type 0} (l after : EventLoop (World W F)) (n : ℕ) (mask : Mask) where
  pub Removed-Sound : Sound l → Removed l n mask after → Sound after
  Removed-Sound v r = record {
    opened = let (st, opened) = v.opened in (st, r.same_api ∙ opened);
    sized = r.sized;
    entries = λ j e at.
        subst (λ ss. IsSound ss j e) (sym r.same_sessions)
          (entry j e at (get_elem? l.events j) refl);
  }
    where
      entry :
          (j : ℕ) (e : FileEvent)
          → get_elem? after.events j ≡ some e
          → (cell : Option FileEvent) → get_elem? l.events j ≡ cell
          → IsSound l.world.sessions j e
      entry j e at none is = absurd (ground (arith, at, r.cells j, is))
      entry j e at (some fe) is = elim (Bool-cases (n == j)) [
        | inl same ↦
            let e_is : record fe { mask = mask_without fe.mask mask } ≡ e =
              ground (arith, at, r.cells j, is, same) in
            subst (IsSound l.world.sessions j) e_is
              (without-IsSound l.world.sessions j mask fe (v.entries j fe is))
        | inr other ↦ v.entries j e (ground (arith, at, r.cells j, other))
      ]

-- After both events were removed, the descriptor is not watched.
module _ {W F : Type 0} (l mid after : EventLoop (World W F)) (n : ℕ) where
  unwatched :
      Removed l n ae_readable mid
      → Removed mid n ae_writable after
      → (e : FileEvent) → get_elem? after.events n ≡ some e
      → is_none e.mask ≡ true
  unwatched first second e at = go (get_elem? l.events n) refl
    where
      go : (cell : Option FileEvent) → get_elem? l.events n ≡ cell → is_none e.mask ≡ true
      go none is = absurd (ground (arith, at, first.cells n, second.cells n, is))
      go (some fe) is = ground (arith, at, first.cells n, second.cells n, is)

pos_injective : {a b : ℕ} → pos a ≡ pos b → a ≡ b
pos_injective e = cc

module _ {W F : Type 0} (l : EventLoop (World W F)) (v : Sound l) (address : ℕ) (s : Session)
    (lives : get_elem? l.world.sessions address ≡ some (some s)) where
  -- The place of a session whose descriptor is not watched can be emptied.
  pub emptied-Sound :
      (n : ℕ)
      → s.fd ≡ pos n
      → ((e : FileEvent) → get_elem? l.events n ≡ some e → is_none e.mask ≡ true)
      → Sound (put_session l address none)
  emptied-Sound n at_fd quiet = record {
    opened = v.opened;
    sized = v.sized;
    entries = λ j e at watched. elim (v.entries j e at watched) [
      | inl accepts ↦ inl accepts
      | inr points ↦ inr (other j e at watched points)
    ];
  }
    where
      other :
          (j : ℕ) (e : FileEvent)
          → get_elem? l.events j ≡ some e
          → is_none e.mask ≡ false
          → Points l.world.sessions j e.client_data
          → Points (set l.world.sessions address none) j e.client_data
      other j e at watched (t, there, at_j, loop) = elim (Bool-cases (address == e.client_data)) [
        | inl same ↦
            let address_is : address ≡ e.client_data = ground arith in
            let both : some (some s) ≡ some (some t) =
              sym lives ∙ ap (get_elem? l.world.sessions) address_is ∙ there in
            let s_is : s ≡ t = cc in
            let j_is : n ≡ j = pos_injective (sym at_fd ∙ ap (λ x. x.fd) s_is ∙ at_j) in
            let never = quiet e (ap (get_elem? l.events) j_is ∙ at) in
            absurd (ground (arith, never, watched))
        | inr differs ↦ (
          t,
          get_elem?-set_ne l.world.sessions none (λ q. ground (arith, q, differs)) ∙ there,
          at_j,
          loop,
        )
      ]

  -- A session can be replaced by one with the same ends.
  pub replaced-Sound : (s' : Session) → SameEnds s s' → Sound (put_session l address (some s'))
  replaced-Sound s' (same_fd, same_loop) = record {
    opened = v.opened;
    sized = v.sized;
    entries = λ j e at watched. elim (v.entries j e at watched) [
      | inl accepts ↦ inl accepts
      | inr points ↦ inr (moved j e.client_data points)
    ];
  }
    where
      moved :
          (j a : ℕ)
          → Points l.world.sessions j a
          → Points (set l.world.sessions address (some s')) j a
      moved j a (t, there, at_j, loop) = elim (Bool-cases (address == a)) [
        | inl same ↦
            let address_is : address ≡ a = ground arith in
            let both : some (some s) ≡ some (some t) =
              sym lives ∙ ap (get_elem? l.world.sessions) address_is ∙ there in
            let s_is : s ≡ t = cc in
            (
              s',
              ap (get_elem? (set l.world.sessions address (some s'))) (sym address_is)
                  ∙ Lives-put l address s s' lives,
              same_fd ∙ ap (λ x. x.fd) s_is ∙ at_j,
              same_loop ∙ ap (λ x. x.has_loop) s_is ∙ loop,
            )
        | inr differs ↦ (
          t,
          get_elem?-set_ne l.world.sessions (some s') (λ q. ground (arith, q, differs)) ∙ there,
          at_j,
          loop,
        )
      ]

module _ {W F : Type 0} (k : Kernel W) (os : Os W) (l : EventLoop (World W F)) (v : Sound l) where
  -- `delete _c` goes through no pointer to what was deleted, and leaves none.
  pub delete_session-Sound :
      (n address : ℕ) (s : Session)
      → get_elem? l.world.sessions address ≡ some (some s)
      → s.fd ≡ pos n
      → s.has_loop ≡ true
      → Sure Sound (delete_session k os l address)
  unfolding delete_session
  delete_session-Sound n address s lives at_fd loop =
      let (st, opened) = v.opened in
      rw (session_at-Lives l address s lives) (
        rw loop (
          rw at_fd (
            bind-Sure (del_file_event-Removed k l n ae_readable st opened v.sized) (λ mid first.
              bind-Sure
                (del_file_event-Removed k mid n ae_writable st (first.same_api ∙ opened)
                  first.sized)
                (λ after second.
                  let still =
                    Removed-Sound mid after n ae_writable
                      (Removed-Sound l mid n ae_readable v first) second in
                  let lives' =
                    ap (λ ss. get_elem? ss address) (second.same_sessions ∙ first.same_sessions)
                    ∙ lives in
                  gives (
                    emptied-Sound (with_system after (os.close n after.world.system))
                      (record {
                        opened = still.opened;
                        sized = still.sized;
                        entries = still.entries;
                      })
                      address s lives' n at_fd (unwatched l mid after n first second)))))))
