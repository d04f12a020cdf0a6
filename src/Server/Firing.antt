-- ===== src/Server/Firing.antt =====
-- The calls of the procedures for the fired events, on a loop whose addresses are sound.
use aspr1net.Base.{
  ℕ, zero, suc, ◌+◌, Bool, true, false, not, ◌&&◌, ◌||◌, ◌==◌, List, Option, none, some, ◌≡◌, ◌⊎◌,
  inl, inr, refl, sym, subst, arith, ok, if◌then◌else◌, get_elem?, Sure, bind-Sure, if-Sure, fails,
  gives, Bool-cases,
}
use aspr1net.Base.Int.{ℤ, pos, negsuc}
use aspr1net.Ae.Types.{Mask, mask_and, FileEvent, FiredEvent, EventLoop, at_index, read_event}
use aspr1net.Ae.Epoll.{Kernel}
use aspr1net.Ae.Process.{call, same_proc, fire_writable, fire, fire_all}
use aspr1net.Anet.{Os}
use aspr1net.Buffer.{Allocator}
use aspr1net.Stdio.{Files}
use aspr1net.Server.Handlers.{World, accept_proc, read_proc, write_proc}
use aspr1net.Server.Start.{procs}
use aspr1net.Server.Pointers.{Points, Sound}
use aspr1net.Server.Rounds.{
  write_event_handler-Sound, read_event_handler-Sound, accept_tcp_handler-Sound,
}

-- A procedure that needs no session, or the address of one.
abbrev MayCall : {W F : Type 0} → EventLoop (World W F) → ℕ → ℕ → Option ℕ → Type 0
MayCall l n address proc = (proc ≡ some accept_proc) ⊎ Points l.world.sessions n address

pub at_index-Sure : {V : Type 0} (v : Option V) → Sure (λ x. v ≡ some x) (at_index v)
at_index-Sure none = fails tt
at_index-Sure (some v) = gives refl

-- The entry of a descriptor.
abbrev AtEntry : List FileEvent → ℤ → FileEvent → Type 0
AtEntry events fd fe = (n : ℕ) × (fd ≡ pos n) × (get_elem? events n ≡ some fe)

read_event-Sure :
    (events : List FileEvent) (fd : ℤ) → Sure (AtEntry events fd) (read_event events fd)
read_event-Sure events (negsuc m) = fails tt
read_event-Sure events (pos n) = go (get_elem? events n) refl
  where
    go :
        (v : Option FileEvent) → get_elem? events n ≡ v → Sure (AtEntry events (pos n)) (at_index v)
    go none is = fails tt
    go (some fe) is = gives (n, refl, is)

module _ {W F : Type 0} (alloc : Allocator) (k : Kernel W) (os : Os W) (fs : Files F)
    (fuel : ℕ) where
  procs-Sound :
      (p n address : ℕ) (mask : Mask) (l : EventLoop (World W F)) (v : Sound l)
      → MayCall l n address (some p)
      → Sure Sound (procs alloc k os fs fuel p l (pos n) address mask)
  unfolding procs
  procs-Sound p n address mask l v (inr points) =
      if-Sure (p == accept_proc) (accept_tcp_handler-Sound alloc k os fuel n address mask l v) (
        if-Sure (p == read_proc)
          (read_event_handler-Sound alloc k os fs fuel n address mask l v points)
          (if-Sure (p == write_proc) (write_event_handler-Sound k os n address mask l v points)
            (fails tt)))
  procs-Sound p n address mask l v (inl accepts) =
      let is_accept : (p == accept_proc) ≡ true = ground (arith, accepts) in
      rw is_accept (accept_tcp_handler-Sound alloc k os fuel n address mask l v)

  call-Sound :
      (proc : Option ℕ) (n address : ℕ) (mask : Mask) (l : EventLoop (World W F)) (v : Sound l)
      → MayCall l n address proc
      → Sure Sound (call (procs alloc k os fs fuel) proc l (pos n) address mask)
  call-Sound none n address mask l v may = fails tt
  call-Sound (some p) n address mask l v may = procs-Sound p n address mask l v may

  -- What the mask of a sound entry lets be called.
  may_read :
      (l : EventLoop (World W F)) (v : Sound l) (n : ℕ) (fe : FileEvent) (mask : Mask)
      → get_elem? l.events n ≡ some fe
      → (mask_and fe.mask mask).readable ≡ true
      → MayCall l n fe.client_data fe.r_proc
  may_read l v n fe mask here fires = elim (v.entries n fe here (ground (arith, fires))) [
    | inl (quiet, accepts) ↦ inl accepts
    | inr points ↦ inr points
  ]

  may_write :
      (l : EventLoop (World W F)) (v : Sound l) (n : ℕ) (fe : FileEvent) (mask : Mask)
      → get_elem? l.events n ≡ some fe
      → (mask_and fe.mask mask).writable ≡ true
      → MayCall l n fe.client_data fe.w_proc
  may_write l v n fe mask here fires = elim (v.entries n fe here (ground (arith, fires))) [
    | inl (quiet, accepts) ↦ absurd (ground (arith, quiet, fires))
    | inr points ↦ inr points
  ]

  fire_writable-Sound :
      (l : EventLoop (World W F)) (f : FiredEvent) (rfired : Bool) (v : Sound l)
      → Sure Sound (fire_writable (procs alloc k os fs fuel) l f rfired)
  unfolding fire_writable
  fire_writable-Sound l f rfired v =
      bind-Sure (read_event-Sure l.events f.fd)
        (λ fe at. go fe at (Bool-cases (mask_and fe.mask f.mask).writable))
    where
      go :
          (fe : FileEvent)
          → AtEntry l.events f.fd fe
          → ((mask_and fe.mask f.mask).writable ≡ true)
            ⊎ ((mask_and fe.mask f.mask).writable ≡ false)
          → Sure Sound (
              if (mask_and fe.mask f.mask).writable
                && (not rfired || not (same_proc fe.r_proc fe.w_proc))
              then call (procs alloc k os fs fuel) fe.w_proc l f.fd fe.client_data f.mask
              else ok l)
      go fe (n, is, here) (inl fires) =
          if-Sure _
            (subst
              (λ d.
                Sure Sound (call (procs alloc k os fs fuel) fe.w_proc l d fe.client_data f.mask))
              (sym is)
              (call-Sound fe.w_proc n fe.client_data f.mask l v
                (may_write l v n fe f.mask here fires)))
            (gives v)
      go fe at (inr quiet) = rw quiet (gives v)

  fire-Sound :
      (l : EventLoop (World W F)) (f : FiredEvent) (v : Sound l)
      → Sure Sound (fire (procs alloc k os fs fuel) l f)
  unfolding fire
  fire-Sound l f v = bind-Sure (read_event-Sure l.events f.fd) (λ fe at.
      bind-Sure (reading fe at (Bool-cases (mask_and fe.mask f.mask).readable))
        (λ read v'. fire_writable-Sound read f _ v'))
    where
      reading :
          (fe : FileEvent)
          → AtEntry l.events f.fd fe
          → ((mask_and fe.mask f.mask).readable ≡ true)
            ⊎ ((mask_and fe.mask f.mask).readable ≡ false)
          → Sure Sound (
              if (mask_and fe.mask f.mask).readable
              then call (procs alloc k os fs fuel) fe.r_proc l f.fd fe.client_data f.mask
              else ok l)
      reading fe (n, is, here) (inl fires) =
          if-Sure _
            (subst
              (λ d.
                Sure Sound (call (procs alloc k os fs fuel) fe.r_proc l d fe.client_data f.mask))
              (sym is)
              (call-Sound fe.r_proc n fe.client_data f.mask l v
                (may_read l v n fe f.mask here fires)))
            (gives v)
      reading fe at (inr quiet) = rw quiet (gives v)

  pub fire_all-Sound :
      (n i : ℕ) (l : EventLoop (World W F)) (v : Sound l)
      → Sure Sound (fire_all (procs alloc k os fs fuel) n i l)
  unfolding fire_all
  fire_all-Sound zero i l v = gives v
  fire_all-Sound (suc n) i l v =
      bind-Sure (at_index-Sure (get_elem? l.fired i))
        (λ f at. bind-Sure (fire-Sound l f v) (λ l' v'. fire_all-Sound n (i + 1) l' v'))
