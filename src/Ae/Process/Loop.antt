-- ===== src/Ae/Process/Loop.antt =====
-- The rounds of `run`.
use aspr1net.Base.{
  ℕ, zero, suc, ◌<◌, true, false, some, ◌≡◌, refl, Fault, Result, ok, err, out_of_fuel, arith,
  Bool-cases, Option-cases, inl, inr, ◌⊎◌,
}
use aspr1net.Base.Int.{ℤ}
use aspr1net.Ae.Types.{EventLoop}
use aspr1net.Ae.Epoll.{Kernel, KernelLaws}
use aspr1net.Ae.Process.{ae_all_events, Procs, process_events, before_sleep, run_loop, run}
use aspr1net.Ae.Process.Calls.{IsServing, Keep}
use aspr1net.Ae.Process.Safety.{RaisesPolled, process_events-IsServing}

-- Clearing the flag leaves the loop in order.
started :
    {W : Type 0} {k : Kernel W} (l : EventLoop W)
    → IsServing k l
    → IsServing k (record l { stop_flag = false })
started l v = record {
  well_formed = record {
    sized = v.well_formed.sized;
    top = v.well_formed.top;
    watched = v.well_formed.watched;
  };
  sizes = (
    v.sizes.0,
    record { opened = v.sizes.1.opened; reports = v.sizes.1.reports; fired = v.sizes.1.fired },
  );
  has_procs = v.has_procs;
}

-- The calls of a `_bs_proc` by its number.
abbrev pub BeforeProcs : Type 0 → Type 0
BeforeProcs W = ℕ → EventLoop W → Result (EventLoop W)

-- A `_bs_proc` that returns leaves a loop in order.
abbrev pub KeepBefore : {W : Type 0} → Kernel W → BeforeProcs W → Type 0
KeepBefore {W} k bs_procs =
    (p : ℕ) (l after : EventLoop W) → IsServing k l → bs_procs p l ≡ ok after → IsServing k after

-- A round has a fault: that of its `_bs_proc`, or that of a registered procedure behind the poll.
pub data Fails {W : Type 0} (k : Kernel W) (procs : Procs W) (bs_procs : BeforeProcs W)
    (now : EventLoop W) (fault : Fault) : Type 0 where
  before_fails :
      {p : ℕ} → now.bs_proc ≡ some p → bs_procs p now ≡ err fault → Fails k procs bs_procs now fault
  events_fail :
      {slept : EventLoop W}
      → before_sleep k procs bs_procs now ≡ ok slept
      → RaisesPolled k procs slept ae_all_events fault
      → Fails k procs bs_procs now fault

-- So many rounds, each on a loop whose flag is not set: `_bs_proc`, and then all the events.
pub data Rounds {W : Type 0} (k : Kernel W) (procs : Procs W) (bs_procs : BeforeProcs W)
    : ℕ → EventLoop W → EventLoop W → Type 0 where
  at_start : {l : EventLoop W} → Rounds k procs bs_procs zero l l
  round :
      {m : ℕ} {l slept after end : EventLoop W} {n : ℤ}
      → l.stop_flag ≡ false
      → before_sleep k procs bs_procs l ≡ ok slept
      → process_events k procs slept ae_all_events ≡ ok (after, n)
      → Rounds k procs bs_procs m after end
      → Rounds k procs bs_procs (suc m) l end

-- How a run from `l` stands after at most `fuel` rounds.
pub data Ran {W : Type 0} (k : Kernel W) (procs : Procs W) (bs_procs : BeforeProcs W) (fuel : ℕ)
    (l : EventLoop W) : Result (EventLoop W) → Type 0 where
  going :
      {now : EventLoop W}
      → Rounds k procs bs_procs fuel l now
      → IsServing k now
      → Ran k procs bs_procs fuel l (err out_of_fuel)
  stopped :
      {m : ℕ} {end : EventLoop W}
      → m < fuel
      → Rounds k procs bs_procs m l end
      → IsServing k end
      → end.stop_flag ≡ true
      → Ran k procs bs_procs fuel l (ok end)
  faulted :
      {m : ℕ} {now : EventLoop W} {fault : Fault}
      → m < fuel
      → Rounds k procs bs_procs m l now
      → now.stop_flag ≡ false
      → Fails k procs bs_procs now fault
      → Ran k procs bs_procs fuel l (err fault)

module _ {W : Type 0} (k : Kernel W) (laws : KernelLaws k) (procs : Procs W) (keep : Keep k procs)
    (bs_procs : BeforeProcs W) (before : KeepBefore k bs_procs) where
  before_sleep-IsServing :
      (l : EventLoop W)
      → IsServing k l
      → ((after : EventLoop W) × (before_sleep k procs bs_procs l ≡ ok after) × IsServing k after)
        ⊎ ((fault : Fault) × (before_sleep k procs bs_procs l ≡ err fault)
            × Fails k procs bs_procs l fault)
  before_sleep-IsServing l v = elim (Option-cases l.bs_proc) [
    | inl unset ↦ inl (l, rw unset refl, v)
    | inr (p, set_to) ↦ called p set_to (bs_procs p l) refl
  ]
    where
      called :
          (p : ℕ)
          → l.bs_proc ≡ some p
          → (r : Result (EventLoop W)) → bs_procs p l ≡ r
          → ((after : EventLoop W) × (before_sleep k procs bs_procs l ≡ ok after)
              × IsServing k after)
            ⊎ ((fault : Fault) × (before_sleep k procs bs_procs l ≡ err fault)
                × Fails k procs bs_procs l fault)
      called p set_to (ok after) done =
          inl (after, ground (arith, set_to, done), before p l after v done)
      called p set_to (err fault) failed =
          inr (fault, ground (arith, set_to, failed), before_fails set_to failed)

  Ran-after :
      {fuel : ℕ} {l slept after : EventLoop W} {n : ℤ} {r : Result (EventLoop W)}
      → l.stop_flag ≡ false
      → before_sleep k procs bs_procs l ≡ ok slept
      → process_events k procs slept ae_all_events ≡ ok (after, n)
      → Ran k procs bs_procs fuel after r
      → Ran k procs bs_procs (suc fuel) l r
  Ran-after set woke done (going rs v) = going (round set woke done rs) v
  Ran-after set woke done (stopped lt rs v end) =
      stopped (omega arith) (round set woke done rs) v end
  Ran-after set woke done (faulted lt rs off foreign) =
      faulted (omega arith) (round set woke done rs) off foreign

  Ran-eq :
      {fuel : ℕ} {l : EventLoop W} {r r' : Result (EventLoop W)}
      → r ≡ r'
      → Ran k procs bs_procs fuel l r'
      → Ran k procs bs_procs fuel l r
  Ran-eq e v = rw e v

  -- The round of `run_loop`, by what its calls give.
  module _ (f : ℕ) (l : EventLoop W) (unset : l.stop_flag ≡ false) where
    no_sleep :
        {fault : Fault}
        → before_sleep k procs bs_procs l ≡ err fault
        → run_loop k procs bs_procs (suc f) l ≡ err fault
    unfolding run_loop
    no_sleep failed = ground (arith, unset, failed)

    module _ {slept : EventLoop W} (woke : before_sleep k procs bs_procs l ≡ ok slept) where
      no_events :
          {fault : Fault}
          → process_events k procs slept ae_all_events ≡ err fault
          → run_loop k procs bs_procs (suc f) l ≡ err fault
      unfolding run_loop
      no_events failed = ground (arith, unset, woke, failed)

      next_round :
          {after : EventLoop W} {n : ℤ}
          → process_events k procs slept ae_all_events ≡ ok (after, n)
          → run_loop k procs bs_procs (suc f) l ≡ run_loop k procs bs_procs f after
      unfolding run_loop
      next_round done = ground (arith, unset, woke, done)

  run_loop_stopped :
      (f : ℕ) (l : EventLoop W) → l.stop_flag ≡ true → run_loop k procs bs_procs (suc f) l ≡ ok l
  unfolding run_loop
  run_loop_stopped f l set = ground (arith, set)

  run_loop-Ran :
      (fuel : ℕ) (l : EventLoop W)
      → IsServing k l
      → Ran k procs bs_procs fuel l (run_loop k procs bs_procs fuel l)
  unfolding run_loop
  run_loop-Ran zero l v = going at_start v
  run_loop-Ran (suc f) l v = elim (Bool-cases l.stop_flag) [
    | inl set ↦ Ran-eq (run_loop_stopped f l set) (stopped (omega arith) at_start v set)
    | inr unset ↦ elim (before_sleep-IsServing l v) [
      | inr (fault, failed, foreign) ↦
          Ran-eq (no_sleep f l unset failed) (faulted (omega arith) at_start unset foreign)
      | inl (slept, woke, v') ↦
          elim (process_events-IsServing k laws procs keep slept ae_all_events v') [
            | inr (fault, failed, raised) ↦
                Ran-eq (no_events f l unset woke failed)
                  (faulted (omega arith) at_start unset (events_fail woke raised))
            | inl (after, n, done, v'') ↦
                Ran-eq (next_round f l unset woke done)
                  (Ran-after unset woke done (run_loop-Ran f after v''))
          ]
    ]
  ]

  pub run-Ran :
      (fuel : ℕ) (l : EventLoop W)
      → IsServing k l
      → Ran k procs bs_procs fuel (record l { stop_flag = false }) (run k procs bs_procs fuel l)
  unfolding run
  run-Ran fuel l v = run_loop-Ran fuel (record l { stop_flag = false }) (started l v)
