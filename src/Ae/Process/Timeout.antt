-- ===== src/Ae/Process/Timeout.antt =====
-- How long `process_events` lets epoll wait.
use aspr1net.Base.{
  Bool-cases, ◌+◌, ◌*◌, ◌/◌, ◌%◌, ◌^◌, ◌<◌, true, false, not, none, some, ◌≡◌, refl, arith, ◌∙◌, ap,
  sym, if◌then◌else◌, lt→ltb, Option-cases, inl, inr,
}
use aspr1net.Base.Int.{ℤ, pos, negsuc, minus_one, pos_part}
use aspr1net.Ae.Types.{TimeEvent, EventLoop}
use aspr1net.Ae.Epoll.{Kernel, timeout_of}
use aspr1net.Ae.Times.{current_time, nearest_time_event}
use aspr1net.Ae.Process.{Flags, milliseconds_to, timeval_of, timeval_for}

-- A number of milliseconds survives its way through the timeval, if it fits into an int.
timeout_of-timeval_of :
    (ms : ℤ) → pos_part ms < 2 ^ 31 → timeout_of (some (timeval_of ms)) ≡ pos (pos_part ms)
unfolding timeout_of
timeout_of-timeval_of (pos ms) h =
    let whole : (ms / 1000 * 1000 + ms % 1000 * 1000 / 1000) % 2 ^ 32 ≡ ms = omega arith in
    rw (whole, lt→ltb ms (2 ^ 31) h)
timeout_of-timeval_of (negsuc n) h = refl

-- How long epoll should wait: not at all with AE_DONT_WAIT; for ever without AE_TIME_EVENTS or
-- without a time event; else till the nearest one is due, and not at all if that time has come.
abbrev pub wait_time : {W : Type 0} → Kernel W → EventLoop W → Flags → ℤ
wait_time k l flags =
    if flags.dont_wait
    then pos 0
    else if not flags.time_events
    then minus_one
    else elim (nearest_time_event l) [
      | none ↦ minus_one
      | some te ↦ pos (pos_part (milliseconds_to te (current_time k l.world)))
    ]

timeval_for-nearest :
    {W : Type 0} (k : Kernel W) (l : EventLoop W) (flags : Flags) (te : TimeEvent)
    → flags.dont_wait ≡ false
    → flags.time_events ≡ true
    → nearest_time_event l ≡ some te
    → timeval_for k l flags ≡ some (timeval_of (milliseconds_to te (current_time k l.world)))
unfolding timeval_for
timeval_for-nearest k l flags te h t e = ground (arith, h, t, e)

wait_time-nearest :
    {W : Type 0} (k : Kernel W) (l : EventLoop W) (flags : Flags) (te : TimeEvent)
    → flags.dont_wait ≡ false
    → flags.time_events ≡ true
    → nearest_time_event l ≡ some te
    → wait_time k l flags ≡ pos (pos_part (milliseconds_to te (current_time k l.world)))
wait_time-nearest k l flags te h t e = ground (arith, h, t, e)

-- The time limit that reaches epoll_wait is the one of `wait_time`, if the time to the nearest event
-- fits into an int of milliseconds.
pub timeout_of-timeval_for :
    {W : Type 0} (k : Kernel W) (l : EventLoop W) (flags : Flags)
    → ((te : TimeEvent)
        → nearest_time_event l ≡ some te
        → pos_part (milliseconds_to te (current_time k l.world)) < 2 ^ 31)
    → timeout_of (timeval_for k l flags) ≡ wait_time k l flags
unfolding timeval_for
timeout_of-timeval_for k l flags small = elim (Option-cases (nearest_time_event l)) [
  | inl idle ↦ unfold timeout_of in ground (arith, idle)
  | inr (te, found) ↦
      let ms = milliseconds_to te (current_time k l.world) in
      let limit = timeout_of-timeval_of ms (small te found) in
      elim (Bool-cases flags.dont_wait) [
        | inl now ↦ unfold timeout_of in ground (arith, now)
        | inr later ↦ elim (Bool-cases flags.time_events) [
          | inl timed ↦
              ap timeout_of (timeval_for-nearest k l flags te later timed found)
              ∙ limit
              ∙ sym (wait_time-nearest k l flags te later timed found)
          | inr files ↦ unfold timeout_of in ground (arith, later, files)
        ]
      ]
]
