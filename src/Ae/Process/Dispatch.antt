-- ===== src/Ae/Process/Dispatch.antt =====
-- The rounds of `process_events` over the fired events. A procedure may have a fault of its own; the
-- loop has none.
use aspr1net.Base.{
  ℕ, zero, suc, ◌+◌, ◌≤◌, ◌<◌, Bool, true, false, not, ◌&&◌, ◌||◌, Option, none, some, ◌≡◌, ◌≢◌,
  refl, sym, subst, Result, ok, err, arith, get_elem?, get_elem?_of_lt, Bool-cases, inl, inr, ◌⊎◌,
}
use aspr1net.Base.Int.{pos}
use aspr1net.Ae.Types.{Mask, mask_and, FileEvent, FiredEvent, EventLoop, read_event}
use aspr1net.Ae.Epoll.{Kernel}
use aspr1net.Ae.Process.{Procs, call, same_proc, fire_writable, fire, fire_all}
use aspr1net.Ae.Process.Calls.{
  IsServing, Ordered, Ordered-refl, Keep, Registered, here, call_then, Served, returns, raises,
  bind-Served, Served-eq,
}

module _ {W : Type 0} (k : Kernel W) (procs : Procs W) (keep : Keep k procs) where
  call-Served :
      (p : Option ℕ) (l : EventLoop W) (n : ℕ) (fe : FileEvent) (mask : Mask)
      → p ≢ none
      → IsServing k l
      → get_elem? l.events n ≡ some fe
      → (fe.r_proc ≡ p) ⊎ (fe.w_proc ≡ p)
      → Served k procs l (call procs p l (pos n) fe.client_data mask)
  call-Served none l n fe mask some_proc v at_n is = absurd (some_proc refl)
  call-Served (some p) l n fe mask some_proc v at_n is =
      called (procs p l (pos n) fe.client_data mask) refl
    where
      known : Registered l n p fe.client_data
      known = record { entry = fe; at_n = at_n; is_proc = is; is_data = refl }

      called :
          (r : Result (EventLoop W))
          → procs p l (pos n) fe.client_data mask ≡ r
          → Served k procs l r
      called (ok after) done =
          returns (keep p l n fe.client_data mask after v known done) (call_then known done here)
      called (err fault) failed = raises (record {
        now = l;
        reached = here;
        serving = v;
        fd = n;
        proc = p;
        client_data = fe.client_data;
        mask = mask;
        registered = known;
        failed = failed;
      })

module _ {W : Type 0} (k : Kernel W) (procs : Procs W) (keep : Keep k procs) (n : ℕ)
    (f : FiredEvent) (at_n : f.fd ≡ pos n) where
  entry_of :
      (l : EventLoop W)
      → IsServing k l
      → n < l.fdset_size
      → (fe : FileEvent) × (get_elem? l.events n ≡ some fe) × (read_event l.events f.fd ≡ ok fe)
  entry_of l v h =
      let (fe, found_at) = get_elem?_of_lt l.events n (omega (arith, v.well_formed.sized)) in
      (fe, found_at, rw at_n (rw found_at refl))

  fire_writable-Served :
      (l : EventLoop W) (rfired : Bool)
      → IsServing k l
      → n < l.fdset_size
      → Served k procs l (fire_writable procs l f rfired)
  unfolding fire_writable
  fire_writable-Served l rfired v h =
      let (fe, found_at, found) = entry_of l v h in
      let test =
        (mask_and fe.mask f.mask).writable && (not rfired || not (same_proc fe.r_proc fe.w_proc)) in
      rw found (elim (Bool-cases test) [
        | inl go ↦ Served-eq (rw go refl) (
            subst (λ fd. Served k procs l (call procs fe.w_proc l fd fe.client_data f.mask))
              (sym at_n)
              (call-Served k procs keep fe.w_proc l n fe f.mask
                ((v.has_procs n fe found_at).1 (ground arith)) v found_at (inr refl)))
        | inr stay ↦ Served-eq (rw stay refl) (returns (Ordered-refl v) here)
      ])

  -- One round returns, in order, for a descriptor within the table, or a procedure has a fault.
  fire-Served :
      (l : EventLoop W) → IsServing k l → n < l.fdset_size → Served k procs l (fire procs l f)
  unfolding fire
  fire-Served l v h =
      let (fe, found_at, found) = entry_of l v h in
      let rest = λ (rfired : Bool) (mid : EventLoop W) (o : Ordered k l mid).
        fire_writable-Served mid rfired o.serving (omega (arith, o.same_size)) in
      rw found (elim (Bool-cases (mask_and fe.mask f.mask).readable) [
        | inl go ↦ rw go (
            bind-Served
              (subst (λ fd. Served k procs l (call procs fe.r_proc l fd fe.client_data f.mask))
                (sym at_n)
                (call-Served k procs keep fe.r_proc l n fe f.mask
                  ((v.has_procs n fe found_at).0 (ground arith)) v found_at (inl refl)))
              (rest true))
        | inr stay ↦ rw stay (fire_writable-Served l false v h)
      ])

-- The descriptors of the fired events from the i-th on, so many of them, lie within the table.
abbrev pub Within : {W : Type 0} → EventLoop W → ℕ → ℕ → Type 0
Within l i n =
    (j : ℕ)
    → i ≤ j
    → j < i + n
    → (f : FiredEvent) × (m : ℕ) × (get_elem? l.fired j ≡ some f)
      × (f.fd ≡ pos m)
      × (m < l.fdset_size)

Within-next :
    {W : Type 0} (l after : EventLoop W) (i n : ℕ)
    → after.fired ≡ l.fired
    → after.fdset_size ≡ l.fdset_size
    → Within l i (suc n)
    → Within after (i + 1) n
Within-next l after i n fired size inside j lo hi =
    let (f, m, at_i, at_m, lt) = inside j (omega arith) (omega arith) in
    (f, m, rw fired at_i, at_m, rw size lt)

module _ {W : Type 0} (k : Kernel W) (procs : Procs W) (keep : Keep k procs) where
  pub fire_all-Served :
      (n i : ℕ) (l : EventLoop W)
      → IsServing k l
      → Within l i n
      → Served k procs l (fire_all procs n i l)
  unfolding fire_all
  fire_all-Served zero i l v inside = returns (Ordered-refl v) here
  fire_all-Served (suc n) i l v inside =
      let (f, m, at_i, at_m, lt) = inside i (omega arith) (omega arith) in
      rw at_i (
        bind-Served (fire-Served k procs keep m f at_m l v lt) (λ next o.
          fire_all-Served n (i + 1) next o.serving
            (Within-next l next i n o.same_fired o.same_size inside)))
