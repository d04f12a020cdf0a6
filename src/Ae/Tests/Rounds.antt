-- ===== src/Ae/Tests/Rounds.antt =====
-- The theorems on polling and on the rounds of `run`, at a concrete loop.
use aspr1net.Base.{◌<◌, ◌^◌, none, some, ◌≡◌, refl, ok, err, Fault, ◌⊎◌, arith}
use aspr1net.Base.Int.{ℤ, pos, pos_part, ◌+ℤ◌, ◌-ℤ◌, scale_ℤ}
use aspr1net.Ae.Types.{TimeEvent, EventLoop}
use aspr1net.Ae.Epoll.{timeout_of}
use aspr1net.Ae.Times.{current_time, nearest_time_event}
use aspr1net.Ae.Process.{ae_all_events, milliseconds_to, poll, timeval_for, process_events}
use aspr1net.Ae.Process.Timeout.{wait_time, timeout_of-timeval_for}
use aspr1net.Ae.Process.Polling.{Polled, poll-Polled}
use aspr1net.Ae.Process.Calls.{IsServing}
use aspr1net.Ae.Process.Safety.{RaisesPolled, process_events-IsServing}
use aspr1net.Ae.Process.Loop.{BeforeProcs}
use aspr1net.Ae.Tests.{
  World, kernel, kernel_laws, serving, timer, serving-SameSize, serving-IsServing, procs,
  procs-Keep, reports_of,
}

some_timer : {a b : TimeEvent} → some a ≡ some b → a ≡ b
some_timer h = cc

nearest_small :
    (te : TimeEvent)
    → nearest_time_event serving ≡ some te
    → pos_part (milliseconds_to te (current_time kernel serving.world)) < 2 ^ 31
unfolding nearest_time_event current_time ◌+ℤ◌ ◌-ℤ◌ scale_ℤ
nearest_small te found = rw⁻¹ (some_timer {a = timer 0 1001} found) (omega arith)

timeout_of-timeval_for_example :
    timeout_of (timeval_for kernel serving ae_all_events) ≡ wait_time kernel serving ae_all_events
timeout_of-timeval_for_example = timeout_of-timeval_for kernel serving ae_all_events nearest_small

-- The first timer is due in 501 milliseconds.
waits_501 : wait_time kernel serving ae_all_events ≡ pos 501
unfolding nearest_time_event current_time ◌+ℤ◌ ◌-ℤ◌ scale_ℤ
waits_501 = refl

poll-Polled_example :
    (after : EventLoop World) × (poll kernel serving none ≡ ok (after, pos 1))
    × Polled kernel serving serving.world (reports_of 2 (serving.world 1)) after
poll-Polled_example =
    poll-Polled kernel kernel_laws serving none {reports = reports_of 2 (serving.world 1)}
      serving-SameSize refl

process_events-IsServing_example :
    ((after : EventLoop World) × (n : ℤ) × (process_events kernel procs serving ae_all_events
        ≡ ok (after, n))
      × IsServing kernel after)
    ⊎ ((fault : Fault) × (process_events kernel procs serving ae_all_events ≡ err fault)
        × RaisesPolled kernel procs serving ae_all_events fault)
process_events-IsServing_example =
    process_events-IsServing kernel kernel_laws procs procs-Keep serving ae_all_events
      serving-IsServing

abbrev no_before : BeforeProcs World
no_before p l = ok l
