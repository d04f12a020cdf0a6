-- ===== src/Ae/Process/Calls.antt =====
-- The calls of procedures from a loop that is in order, and what comes of them: a loop in order, or a
-- fault of a procedure.
use aspr1net.Base.{
  ℕ, true, none, some, ◌≡◌, ◌≢◌, refl, Fault, Result, ok, err, ◌>>=◌, ◌∙◌, get_elem?, inl, inr, ◌⊎◌,
}
use aspr1net.Base.Int.{pos}
use aspr1net.Ae.Types.{Mask, FileEvent, EpollState, EventLoop}
use aspr1net.Ae.Epoll.{Kernel}
use aspr1net.Ae.Files.Invariant.{WellFormed}
use aspr1net.Ae.Process.Polling.{SameSize}
use aspr1net.Ae.Process.{Procs}

-- The loop is well-formed, its arrays have one size, and no event is waited for without a procedure.
pub record IsServing {W : Type 0} (k : Kernel W) (l : EventLoop W) : Type 0 where
  pub well_formed : WellFormed k l
  pub sizes : (s : EpollState) × SameSize l s
  pub has_procs :
      (n : ℕ) (fe : FileEvent)
      → get_elem? l.events n ≡ some fe
      → (fe.mask.readable ≡ true → fe.r_proc ≢ none) × (fe.mask.writable ≡ true → fe.w_proc ≢ none)

-- A loop in order, whose fired events and size are those of an earlier one.
pub record Ordered {W : Type 0} (k : Kernel W) (l after : EventLoop W) : Type 0 where
  pub serving : IsServing k after
  pub same_fired : after.fired ≡ l.fired
  pub same_size : after.fdset_size ≡ l.fdset_size

pub Ordered-trans :
    {W : Type 0} {k : Kernel W} {l mid after : EventLoop W}
    → Ordered k l mid
    → Ordered k mid after
    → Ordered k l after
Ordered-trans h g = record {
  serving = g.serving;
  same_fired = g.same_fired ∙ h.same_fired;
  same_size = g.same_size ∙ h.same_size;
}

pub Ordered-refl : {W : Type 0} {k : Kernel W} {l : EventLoop W} → IsServing k l → Ordered k l l
Ordered-refl v = record { serving = v; same_fired = refl; same_size = refl }

-- A procedure that the table has for a descriptor, with its client data.
pub record Registered {W : Type 0} (l : EventLoop W) (n p client_data : ℕ) : Type 0 where
  pub entry : FileEvent
  pub at_n : get_elem? l.events n ≡ some entry
  pub is_proc : (entry.r_proc ≡ some p) ⊎ (entry.w_proc ≡ some p)
  pub is_data : entry.client_data ≡ client_data

-- What a registered procedure leaves, when it returns, is in order, with the fired events and the
-- size of the loop that it was called on.
abbrev pub Keep : {W : Type 0} → Kernel W → Procs W → Type 0
Keep {W} k procs =
    (p : ℕ) (l : EventLoop W) (n client_data : ℕ) (mask : Mask) (after : EventLoop W)
    → IsServing k l
    → Registered l n p client_data
    → procs p l (pos n) client_data mask ≡ ok after
    → Ordered k l after

-- From one loop to another by calls of registered procedures that return.
pub data Reaches {W : Type 0} (procs : Procs W) : EventLoop W → EventLoop W → Type 0 where
  here : {l : EventLoop W} → Reaches procs l l
  call_then :
      {l mid after : EventLoop W} {n p client_data : ℕ} {mask : Mask}
      → Registered l n p client_data
      → procs p l (pos n) client_data mask ≡ ok mid
      → Reaches procs mid after
      → Reaches procs l after

Reaches-trans :
    {W : Type 0} {procs : Procs W} {l mid after : EventLoop W}
    → Reaches procs l mid
    → Reaches procs mid after
    → Reaches procs l after
Reaches-trans here more = more
Reaches-trans (call_then r done rest) more = call_then r done (Reaches-trans rest more)

-- A registered procedure has a fault, when it is called on a loop that is in order and was reached
-- from `l` by such calls.
pub record Raises {W : Type 0} (k : Kernel W) (procs : Procs W) (l : EventLoop W) (fault : Fault)
    : Type 0 where
  pub now : EventLoop W
  pub reached : Reaches procs l now
  pub serving : IsServing k now
  pub fd : ℕ
  pub proc : ℕ
  pub client_data : ℕ
  pub mask : Mask
  pub registered : Registered now fd proc client_data
  pub failed : procs proc now (pos fd) client_data mask ≡ err fault

-- A result that is in order, or a fault of a procedure.
pub data Served {W : Type 0} (k : Kernel W) (procs : Procs W) (l : EventLoop W)
    : Result (EventLoop W) → Type 0 where
  returns :
      {after : EventLoop W}
      → Ordered k l after
      → Reaches procs l after
      → Served k procs l (ok after)
  raises : {fault : Fault} → Raises k procs l fault → Served k procs l (err fault)

module _ {W : Type 0} {k : Kernel W} {procs : Procs W} {l : EventLoop W} where
  Raises-from :
      {mid : EventLoop W} {fault : Fault}
      → Reaches procs l mid
      → Raises k procs mid fault
      → Raises k procs l fault
  Raises-from first h = record {
    now = h.now;
    reached = Reaches-trans first h.reached;
    serving = h.serving;
    fd = h.fd;
    proc = h.proc;
    client_data = h.client_data;
    mask = h.mask;
    registered = h.registered;
    failed = h.failed;
  }

  pub bind-Served :
      {r : Result (EventLoop W)} {next : EventLoop W → Result (EventLoop W)}
      → Served k procs l r
      → ((mid : EventLoop W) → Ordered k l mid → Served k procs mid (next mid))
      → Served k procs l (r >>= next)
  bind-Served (raises h) go = raises h
  bind-Served (returns {after = mid} h first) go = after_mid h first (go mid h)
    where
      after_mid :
          {mid : EventLoop W} {r : Result (EventLoop W)}
          → Ordered k l mid
          → Reaches procs l mid
          → Served k procs mid r
          → Served k procs l r
      after_mid h first (raises g) = raises (Raises-from first g)
      after_mid h first (returns g more) = returns (Ordered-trans h g) (Reaches-trans first more)

  pub Served-eq : {r r' : Result (EventLoop W)} → r ≡ r' → Served k procs l r' → Served k procs l r
  Served-eq e v = rw e v

  pub Served-cases :
      {r : Result (EventLoop W)}
      → Served k procs l r
      → ((after : EventLoop W) × (r ≡ ok after) × Ordered k l after)
        ⊎ ((fault : Fault) × (r ≡ err fault) × Raises k procs l fault)
  Served-cases (returns {after} o first) = inl (after, refl, o)
  Served-cases (raises {fault} h) = inr (fault, refl, h)
