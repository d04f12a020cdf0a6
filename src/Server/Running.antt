-- ===== src/Server/Running.antt =====
-- The event loop with the procedures of the server, on a loop whose addresses are sound.
use aspr1net.Base.{
  ℕ, zero, suc, ◌+◌, Bool, false, not, ◌&&◌, List, Option, none, some, ◌≡◌, refl, sym, subst,
  Result, ok, err, null_pointer, ◌>>=◌, if◌then◌else◌, length, get_elem?, ltb, Sure, Clean,
  bind-Sure, if-Sure, fails, gives,
}
use aspr1net.Base.Int.{ℤ}
use aspr1net.Ae.Types.{FiredEvent, Report, EventLoop, EpollState}
use aspr1net.Ae.Epoll.{Kernel, Timeval}
use aspr1net.Ae.Epoll
use aspr1net.Ae.Process.{
  Flags, ae_all_events, fired_of, put_fired, fill_fired, rounds, poll, timeval_for, has_to_poll,
  process_file_events, process_events, run_loop, run,
}
use aspr1net.Anet.{Os}
use aspr1net.Buffer.{Allocator}
use aspr1net.Stdio.{Files}
use aspr1net.Server.Handlers.{World, lifted}
use aspr1net.Server.Start.{Server, procs, wait}
use aspr1net.Server.Pointers.{Sound}
use aspr1net.Server.Firing.{at_index-Sure, fire_all-Sound}

module _ {W F : Type 0} (alloc : Allocator) (k : Kernel W) (os : Os W) (fs : Files F)
    (fuel : ℕ) where
  put_fired-Clean : (fired : List FiredEvent) (i : ℕ) (f : FiredEvent) → Clean (put_fired fired i f)
  put_fired-Clean fired i f = if-Sure (ltb i (length fired)) (gives tt) (fails tt)

  fill_fired-Clean :
      (n i : ℕ) (reports : List Report) (fired : List FiredEvent)
      → Clean (fill_fired n i reports fired)
  unfolding fill_fired
  fill_fired-Clean zero i reports fired = gives tt
  fill_fired-Clean (suc n) i reports fired = bind-Sure (at_index-Sure (get_elem? reports i)) (λ e h.
      bind-Sure (put_fired-Clean fired i (fired_of e))
        (λ fired' h. fill_fired-Clean n (i + 1) reports fired'))

  poll-Sound :
      (l : EventLoop (World W F)) (tvp : Option Timeval) (v : Sound l)
      → Sure (λ r. Sound r.0) (poll (lifted k) l tvp)
  unfolding poll Epoll.wait
  poll-Sound l tvp v = go l.api_data refl
    where
      polled :
          (s : EpollState) (fired : List FiredEvent)
          → Sound (record l {
            api_data = some (Epoll.wait (lifted k) s tvp l.world).1;
            fired = fired;
            world = (Epoll.wait (lifted k) s tvp l.world).0;
          })
      polled s fired = record {
        opened = ((Epoll.wait (lifted k) s tvp l.world).1, refl);
        sized = v.sized;
        entries = v.entries;
      }

      go :
          (api : Option EpollState)
          → l.api_data ≡ api
          → Sure (λ r. Sound r.0) (poll (lifted k) l tvp)
      go none is = rw is (fails tt)
      go (some s) is =
          subst
            (λ api.
              Sure {V = EventLoop (World W F) × ℤ} (λ r. Sound r.0)
                (elim api as (λ a. Result (EventLoop (World W F) × ℤ)) [
                  | none ↦ err null_pointer
                  | some s ↦
                      let (w, s', n) = Epoll.wait (lifted k) s tvp l.world in
                      (do
                        fired ← fill_fired (rounds n) 0 s'.events l.fired
                        ok (record l { api_data = some s'; fired = fired; world = w }, n))
                ]))
            (sym is)
            (bind-Sure (fill_fired-Clean _ 0 _ l.fired) (λ fired h. gives (polled s fired)))

  process_file_events-Sound :
      (l : EventLoop (World W F)) (flags : Flags) (v : Sound l)
      → Sure (λ r. Sound r.0) (process_file_events (lifted k) (procs alloc k os fs fuel) l flags)
  unfolding process_file_events
  process_file_events-Sound l flags v =
      bind-Sure (poll-Sound l (timeval_for (lifted k) l flags) v) (λ r v'.
        bind-Sure (fire_all-Sound alloc k os fs fuel (rounds r.1) 0 r.0 v') (λ done v''. gives v''))

  process_events-Sound :
      (l : EventLoop (World W F)) (flags : Flags) (v : Sound l)
      → Sure (λ r. Sound r.0) (process_events (lifted k) (procs alloc k os fs fuel) l flags)
  unfolding process_events
  process_events-Sound l flags v =
      if-Sure (not flags.time_events && not flags.file_events) (gives v) (
        bind-Sure (polled (has_to_poll (lifted k) (procs alloc k os fs fuel) l flags))
          (λ r v'. if-Sure flags.time_events (gives v') (gives v')))
    where
      polled :
          (b : Bool)
          → Sure
              (λ r. Sound r.0)
              (if b
                then process_file_events (lifted k) (procs alloc k os fs fuel) l flags
                else ok (l, 0))
      polled b = if-Sure b (process_file_events-Sound l flags v) (gives v)

  run_loop-Sound :
      (n : ℕ) (l : EventLoop (World W F)) (v : Sound l)
      → Sure Sound (run_loop (lifted k) (procs alloc k os fs fuel) (λ p l. err null_pointer) n l)
  unfolding run_loop
  run_loop-Sound zero l v = fails tt
  run_loop-Sound (suc n) l v = if-Sure l.stop_flag (gives v) (
      bind-Sure (before l.bs_proc) (λ l' v'.
        bind-Sure (process_events-Sound l' ae_all_events v') (λ r v''. run_loop-Sound n r.0 v'')))
    where
      before :
          (proc : Option ℕ)
          → Sure Sound (elim proc as (λ p. Result (EventLoop (World W F))) [
            | none ↦ ok l
            | some p ↦ err null_pointer
          ])
      before none = gives v
      before (some p) = fails tt

  -- `wait` on a sound loop.
  pub wait-Sound :
      (n : ℕ) (s : Server W F) → Sound s.loop → Sure Sound (wait alloc k os fs fuel n s)
  unfolding wait run
  wait-Sound n s v =
      run_loop-Sound n (record s.loop { stop_flag = false })
        (record { opened = v.opened; sized = v.sized; entries = v.entries })
