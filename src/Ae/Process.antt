-- ===== src/Ae/Process.antt =====
-- `poll`, `process_events`, `process_time_events` and `run` of ae.cpp.
pub mod Timeout
pub mod Polling
pub mod Calls
pub mod Dispatch
pub mod Safety
pub mod Keeping
pub mod Loop
use aspr1net.Base.{
  ℕ, zero, suc, ◌+◌, ◌*◌, ◌/◌, ◌%◌, Bool, true, false, not, ◌&&◌, ◌||◌, List, [], ◌∷◌, Option, none,
  some, ◌≡◌, Result, ok, err, out_of_bounds, null_pointer, out_of_fuel, if◌then◌else◌, ◌>>=◌, ◌==◌,
  get_elem?, set, length, ltb,
}
use aspr1net.Base.Int.{ℤ, pos, negsuc, minus_one, eqb_ℤ, pos_part, ◌+ℤ◌, ◌-ℤ◌, scale_ℤ}
use aspr1net.Ae.Types.{
  Mask, mask_and, FileEvent, TimeEvent, FiredEvent, Report, EpollState, EventLoop, at_index,
  read_event,
}
use aspr1net.Ae.Epoll.{Kernel, Timeval, wait}
use aspr1net.Ae.Times.{current_time, nearest_time_event}

-- The flags of `process_events`.
pub record Flags : Type 0 where
  pub file_events : Bool
  pub time_events : Bool
  pub dont_wait : Bool

abbrev pub ae_all_events : Flags
ae_all_events = record { file_events = true; time_events = true; dont_wait = false }

-- `_mask` of `poll`.
abbrev pub fired_of : Report → FiredEvent
fired_of e = record {
  fd = e.fd;
  mask = record { readable = e.epollin; writable = e.epollout || e.epollerr || e.epollhup };
}

-- A store to `_fired[i]`.
abbrev pub put_fired : List FiredEvent → ℕ → FiredEvent → Result (List FiredEvent)
put_fired fired i f = if ltb i (length fired) then ok (set fired i f) else err out_of_bounds

-- The loop of `poll`, with so many rounds left.
unfoldable pub fill_fired : ℕ → ℕ → List Report → List FiredEvent → Result (List FiredEvent)
fill_fired zero i reports fired = ok fired
fill_fired (suc n) i reports fired = do
  e ← at_index (get_elem? reports i)
  fired' ← put_fired fired i (fired_of e)
  fill_fired n (i + 1) reports fired'

-- The number of rounds of `for (i = 0; i < n; ++i)`.
abbrev pub rounds : ℤ → ℕ
rounds n = pos_part n

-- `_ms`: how long the event is away.
abbrev pub milliseconds_to : TimeEvent → ℤ × ℕ → ℤ
milliseconds_to te (ns, nms) = scale_ℤ 1000 (te.when_sec -ℤ ns) +ℤ (te.when_ms -ℤ pos nms)

-- `_tv` from `_ms`: zero for an event that is due.
abbrev pub timeval_of : ℤ → Timeval
timeval_of (pos ms) = record { tv_sec = ms / 1000; tv_usec = ms % 1000 * 1000 }
timeval_of (negsuc n) = record { tv_sec = 0; tv_usec = 0 }

module _ {W : Type 0} (k : Kernel W) where
  -- `_tvp` of `process_events`.
  unfoldable pub timeval_for : EventLoop W → Flags → Option Timeval
  timeval_for l flags =
      let shortest =
        if flags.time_events && not flags.dont_wait then nearest_time_event l else none in
      elim shortest [
        | some te ↦ some (timeval_of (milliseconds_to te (current_time k l.world)))
        | none ↦ if flags.dont_wait then some (record { tv_sec = 0; tv_usec = 0 }) else none
      ]

  unfoldable pub poll : EventLoop W → Option Timeval → Result (EventLoop W × ℤ)
  unfolding wait
  poll l tvp = elim l.api_data [
    | none ↦ err null_pointer
    | some s ↦
        let (w, s', n) = wait k s tvp l.world in
        (do
          fired ← fill_fired (rounds n) 0 s'.events l.fired
          ok (record l { api_data = some s'; fired = fired; world = w }, n))
  ]

-- `process_time_events`: not written yet.
abbrev pub process_time_events : {W : Type 0} → EventLoop W → EventLoop W × ℤ
process_time_events l = (l, pos 0)

-- A procedure of the program: what it does to the loop and the world, when it is called with a
-- descriptor, client data and a mask.
abbrev pub Procs : Type 0 → Type 0
Procs W = ℕ → EventLoop W → ℤ → ℕ → Mask → Result (EventLoop W)

-- A call through a pointer.
abbrev pub call :
    {W : Type 0} → Procs W → Option ℕ → EventLoop W → ℤ → ℕ → Mask → Result (EventLoop W)
call procs none l fd client_data mask = err null_pointer
call procs (some p) l fd client_data mask = procs p l fd client_data mask

-- `_fe->_r_proc != _fe->_w_proc`.
abbrev pub same_proc : Option ℕ → Option ℕ → Bool
same_proc none none = true
same_proc (some p) (some q) = p == q
same_proc none (some q) = false
same_proc (some p) none = false

module _ {W : Type 0} (procs : Procs W) where
  -- The second half of a round, after the table was perhaps changed by the first.
  unfoldable pub fire_writable : EventLoop W → FiredEvent → Bool → Result (EventLoop W)
  fire_writable l f rfired = do
    fe ← read_event l.events f.fd
    if (mask_and fe.mask f.mask).writable && (not rfired || not (same_proc fe.r_proc fe.w_proc))
        then call procs fe.w_proc l f.fd fe.client_data f.mask
        else ok l

  -- One round of the loop over the fired events.
  unfoldable pub fire : EventLoop W → FiredEvent → Result (EventLoop W)
  fire l f = do
    fe ← read_event l.events f.fd
    let rfired = (mask_and fe.mask f.mask).readable
    read ← (if rfired then call procs fe.r_proc l f.fd fe.client_data f.mask else ok l)
    fire_writable read f rfired

  -- The loop, with so many rounds left; the array is read anew in each.
  unfoldable pub fire_all : ℕ → ℕ → EventLoop W → Result (EventLoop W)
  fire_all zero i l = ok l
  fire_all (suc n) i l = do f ← at_index (get_elem? l.fired i); l' ← fire l f; fire_all n (i + 1) l'

module _ {W : Type 0} (k : Kernel W) (procs : Procs W) where
  -- `_max_fd != -1`, or time events to wait for.
  abbrev pub has_to_poll : EventLoop W → Flags → Bool
  has_to_poll l flags = not (eqb_ℤ l.max_fd minus_one) || (flags.time_events && not flags.dont_wait)

  -- The poll and the loop over the fired events, with the number of rounds.
  unfoldable pub process_file_events : EventLoop W → Flags → Result (EventLoop W × ℕ)
  process_file_events l flags = do
    (l', n) ← poll k l (timeval_for k l flags)
    done ← fire_all procs (rounds n) 0 l'
    ok (done, rounds n)

  -- The result is `_processed`: a round for each fired event, and what the time events add.
  unfoldable pub process_events : EventLoop W → Flags → Result (EventLoop W × ℤ)
  process_events l flags =
      if not flags.time_events && not flags.file_events then ok (l, pos 0) else (do
        (polled, processed) ←
            (if has_to_poll l flags then process_file_events l flags else ok (l, 0))
        let (timed, more) = process_time_events polled
        if flags.time_events then ok (timed, pos processed +ℤ more) else ok (polled, pos processed))

  -- `_bs_proc(this)`, if there is one.
  abbrev pub before_sleep :
      (ℕ → EventLoop W → Result (EventLoop W)) → EventLoop W → Result (EventLoop W)
  before_sleep bs_procs l = elim l.bs_proc [ none ↦ ok l | some p ↦ bs_procs p l ]

  -- `while (!_stop)`, on fuel.
  unfoldable pub run_loop :
      (ℕ → EventLoop W → Result (EventLoop W)) → ℕ → EventLoop W → Result (EventLoop W)
  run_loop bs_procs zero l = err out_of_fuel
  run_loop bs_procs (suc f) l =
      let next = (do
        l' ← before_sleep bs_procs l
        (l'', n) ← process_events l' ae_all_events
        run_loop bs_procs f l'') in
      if l.stop_flag then ok l else next

  unfoldable pub run :
      (ℕ → EventLoop W → Result (EventLoop W)) → ℕ → EventLoop W → Result (EventLoop W)
  run bs_procs fuel l = run_loop bs_procs fuel (record l { stop_flag = false })
