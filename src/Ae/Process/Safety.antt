-- ===== src/Ae/Process/Safety.antt =====
-- `poll` and `process_events` on a loop that is in order.
use aspr1net.Base.{
  ℕ, ◌<◌, not, ◌&&◌, List, [], Option, none, ◌≡◌, ◌≢◌, refl, Fault, ok, err, arith, ◌∙◌, ap,
  if◌then◌else◌, length, get_elem?_of_lt, get_elem?_past, Bool-cases, Option-cases, inl, inr, ◌⊎◌,
  ltb,
}
use aspr1net.Base.Int.{ℤ, pos, minus_one, ◌+ℤ◌}
use aspr1net.Ae.Types.{FileEvent, Report, EventLoop}
use aspr1net.Ae.Epoll.{Kernel, KernelLaws, Timeval, timeout_of}
use aspr1net.Ae.Files.Invariant.{interest_at}
use aspr1net.Ae.Process.Polling.{Polled, poll-Polled, poll_failed-Polled, fired_at_report}
use aspr1net.Ae.Process.Calls.{IsServing, Keep, Raises, Served-cases}
use aspr1net.Ae.Process.Dispatch.{Within, fire_all-Served}
use aspr1net.Ae.Process.{
  Flags, fired_of, rounds, poll, timeval_for, Procs, has_to_poll, process_file_events,
  process_events,
}

-- A descriptor that epoll watches has an entry.
watched-lt : (events : List FileEvent) (n : ℕ) → interest_at events n ≢ none → n < length events
watched-lt events n h = elim (Bool-cases (ltb n (length events))) [
  | inl within ↦ ground arith
  | inr past ↦ absurd (h (ground (arith, get_elem?_past events n)))
]

module _ {W : Type 0} (k : Kernel W) (laws : KernelLaws k) (l : EventLoop W)
    (v : IsServing k l) where
  Polled-IsServing :
      (w : W) (reports : List Report) (after : EventLoop W)
      → ((j : ℕ) → k.registered w j ≡ k.registered l.world j)
      → Polled k l w reports after
      → IsServing k after
  Polled-IsServing w reports after same p =
      let events : after.events ≡ l.events = ap (λ x. x.events) p.rest_kept in
      let size : after.fdset_size ≡ l.fdset_size = ap (λ x. x.fdset_size) p.rest_kept in
      let top : after.max_fd ≡ l.max_fd = ap (λ x. x.max_fd) p.rest_kept in
      record {
        well_formed = record {
          sized = rw (events, size) v.well_formed.sized;
          top = rw (events, top) v.well_formed.top;
          watched = λ j. rw (events, p.world_is) (same j ∙ v.well_formed.watched j);
        };
        sizes = p.sizes;
        has_procs = λ n fe here. v.has_procs n fe (rw events at here);
      }

  -- `poll` returns; the fired events that it counts are of descriptors within the table.
  poll-IsServing :
      (tvp : Option Timeval)
      → (after : EventLoop W) × (m : ℤ) × (poll k l tvp ≡ ok (after, m))
        × IsServing k after
        × Within after 0 (rounds m)
  poll-IsServing tvp =
      let (s, same) = v.sizes in
      let answer = k.wait s.events_size (timeout_of tvp) l.world in
      let kept = λ (j : ℕ). laws.wait_registered s.events_size (timeout_of tvp) l.world j in
      elim (Option-cases answer.1) [
        | inl failed ↦
            let (after, done, p) = poll_failed-Polled k l tvp same failed in
            (
              after,
              minus_one,
              done,
              Polled-IsServing answer.0 [] after kept p,
              λ j lo hi. absurd (omega arith),
            )
        | inr (reports, ready) ↦
            let (after, done, p) = poll-Polled k laws l tvp same ready in
            let size : after.fdset_size ≡ l.fdset_size = ap (λ x. x.fdset_size) p.rest_kept in
            (
              after,
              pos (length reports),
              done,
              Polled-IsServing answer.0 reports after kept p,
              λ j lo hi.
                  let (e, here) = get_elem?_of_lt reports j (omega arith) in
                  let (fd, at_fd, watched) =
                    laws.wait_reported s.events_size (timeout_of tvp) l.world j ready here in
                  let entry =
                    watched-lt l.events fd
                      (λ none_there. watched (v.well_formed.watched fd ∙ none_there)) in
                  (
                    fired_of e,
                    fd,
                    p.fired_is j ∙ fired_at_report reports l.fired j here,
                    at_fd,
                    omega (arith, v.well_formed.sized),
                  ),
            )
      ]

-- epoll was polled, and a procedure had the fault behind that, called on a loop in order.
abbrev pub RaisesPolled : {W : Type 0} → Kernel W → Procs W → EventLoop W → Flags → Fault → Type 0
RaisesPolled {W} k procs l flags fault =
    (polled : EventLoop W) × (n : ℤ) × (poll k l (timeval_for k l flags) ≡ ok (polled, n))
    × Raises k procs polled fault

module _ {W : Type 0} (k : Kernel W) (laws : KernelLaws k) (procs : Procs W)
    (keep : Keep k procs) where
  process_file_events-IsServing :
      (l : EventLoop W) (flags : Flags)
      → IsServing k l
      → ((after : EventLoop W) × (n : ℕ) × (process_file_events k procs l flags ≡ ok (after, n))
          × IsServing k after)
        ⊎ ((fault : Fault) × (process_file_events k procs l flags ≡ err fault)
            × RaisesPolled k procs l flags fault)
  unfolding process_file_events
  process_file_events-IsServing l flags v =
      let (polled, m, done, v', inside) = poll-IsServing k laws l v (timeval_for k l flags) in
      elim (Served-cases (fire_all-Served k procs keep (rounds m) 0 polled v' inside)) [
        | inl (after, fired, o) ↦ inl (after, rounds m, rw done (rw fired refl), o.serving)
        | inr (fault, failed, raised) ↦
            inr (fault, rw done (rw failed refl), (polled, m, done, raised))
      ]

  -- On a loop that is in order, `process_events` has no fault of its own, whatever the flags and
  -- whatever epoll reports: it returns and leaves the loop in order, or it polls and ends with the
  -- fault of a procedure that is registered in the table, called on a loop in order, which the calls
  -- of such procedures have led to. No index is out of range and no null procedure is called. A
  -- registered procedure that returns has to leave the loop in order, with the array of fired events
  -- and the size as they were.
  pub process_events-IsServing :
      (l : EventLoop W) (flags : Flags)
      → IsServing k l
      → ((after : EventLoop W) × (n : ℤ) × (process_events k procs l flags ≡ ok (after, n))
          × IsServing k after)
        ⊎ ((fault : Fault) × (process_events k procs l flags ≡ err fault)
            × RaisesPolled k procs l flags fault)
  unfolding process_events
  process_events-IsServing l flags v =
      elim (Bool-cases (not flags.time_events && not flags.file_events)) [
        | inl nothing ↦ inl (l, pos 0, rw nothing refl, v)
        | inr something ↦ elim (Bool-cases (has_to_poll k procs l flags)) [
          | inl wait ↦ elim (process_file_events-IsServing l flags v) [
            | inl (after, n, done, v') ↦ inl (
              after,
              if flags.time_events then pos n +ℤ pos 0 else pos n,
              ground (arith, something, wait, done),
              v',
            )
            | inr (fault, failed, raised) ↦
                inr (fault, ground (arith, something, wait, failed), raised)
          ]
          | inr idle ↦ inl (
            l,
            if flags.time_events then pos 0 +ℤ pos 0 else pos 0,
            ground (arith, something, idle),
            v,
          )
        ]
      ]
