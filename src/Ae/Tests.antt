-- ===== src/Ae/Tests.antt =====
-- A kernel that keeps an interest list and reports descriptor 1, and the theorems on loops over it.
mod Tables
mod Rounds
mod Handlers
use mathlib.Core.List.{Mem}
use aspr1net.Base.{
  ◌>>=◌, ℕ, zero, suc, ◌+◌, ◌<◌, ◌≤◌, ◌/◌, ◌%◌, ◌^◌, Bool, true, false, not, ◌&&◌, ◌||◌, List, [],
  ◌∷◌, Option, none, some, ◌≡◌, ◌≢◌, refl, Result, ok, err, out_of_bounds, out_of_fuel,
  null_pointer, double_free, ◌⊎◌, inl, inr, if◌then◌else◌, ◌==◌, arith, length, get_elem?,
  replicate, length-replicate, All,
}
use aspr1net.Base.Int.{ℤ, pos, negsuc, minus_one, ◌<ℤ◌, ◌+ℤ◌, eqb_ℤ}
use aspr1net.Ae.Types.{
  Mask, ae_none, ae_readable, ae_writable, mask_or, mask_without, FileEvent, no_file_event,
  TimeEvent, FiredEvent, Report, EpollState, EventLoop,
}
use aspr1net.Ae.Epoll.{
  Interest, Op, ctl_add, ctl_mod, ctl_del, Kernel, KernelLaws, interest_of, timeout_of,
}
use aspr1net.Ae.Create.{Arrays, create, create-WellFormed}
use aspr1net.Ae.Files.{ae_ok, ae_err, add_file_event, del_file_event, get_file_event}
use aspr1net.Ae.Files.Invariant.{
  WellFormed, interest_at, add_file_event-WellFormed, del_file_event-WellFormed,
}
use aspr1net.Ae.Files.Effects.{
  negative_descriptor, get_file_event-add_file_event, get_file_event-del_file_event,
}
use aspr1net.Ae.Files.Top.{is_active}
use aspr1net.Ae.Times.{current_time, add_time_event, del_time_event, nearest_time_event}
use aspr1net.Ae.Times.Clock.{add_time_event_lem}
use aspr1net.Ae.Times.Deletion.{
  has_id, IdsBelow, Deletes, del_time_event-Deletes, add_time_event-IdsBelow,
}
use aspr1net.Ae.Times.Nearest.{NotLater, nearest_time_event_lem}
use aspr1net.Ae.Resize.{resize, resize_lem}
use aspr1net.Ae.Process.{ae_all_events, Procs, poll, timeval_for, process_events, run}
use aspr1net.Ae.Process.Timeout.{wait_time, timeout_of-timeval_for}
use aspr1net.Ae.Process.Polling.{SameSize, Polled, poll-Polled}
use aspr1net.Ae.Process.Calls.{IsServing, Keep, Ordered}
use aspr1net.Ae.Process.Keeping.{ok_eq, err_ok, del_file_event-Ordered, add_file_event-Ordered}

abbrev pub World : Type 0
World = ℕ → Option Interest

-- One report of descriptor 1, if it is watched and there is room.
abbrev pub reports_of : ℕ → Option Interest → List Report
reports_of zero i = []
reports_of (suc n) none = []
reports_of (suc n) (some i) =
    record {
      fd = pos 1;
      epollin = i.epollin;
      epollout = i.epollout;
      epollerr = false;
      epollhup = false;
    }
    ∷ []

abbrev ctl_of : Op → ℕ → Interest → World → World
ctl_of ctl_add fd i w = λ j. if fd == j then some i else w j
ctl_of ctl_mod fd i w = λ j. if fd == j then some i else w j
ctl_of ctl_del fd i w = λ j. if fd == j then none else w j

abbrev pub kernel : Kernel World
kernel = record {
  epoll_create = λ w. ((λ j. none), some 3);
  ctl = λ op fd i w. (ctl_of op fd i w, false);
  wait = λ n timeout w. (w, some (reports_of n (w 1)));
  time = λ w. pos 1000;
  gettimeofday = λ w. (pos 1000, 999500);
  registered = λ w j. w j;
}

reports_bounded : (n : ℕ) (i : Option Interest) → length (reports_of n i) ≤ n
reports_bounded zero i = omega arith
reports_bounded (suc n) none = omega arith
reports_bounded (suc n) (some i) = omega arith

reports_watched :
    (n : ℕ) (i : Option Interest) (j : ℕ) {e : Report}
    → get_elem? (reports_of n i) j ≡ some e
    → (e.fd ≡ pos 1) × (i ≢ none)
reports_watched zero i j here = cc
reports_watched (suc n) none j here = cc
reports_watched (suc n) (some i) zero here = (cc, λ h. cc)
reports_watched (suc n) (some i) (suc j) here = cc

same_reports : {a b : List Report} → some a ≡ some b → a ≡ b
same_reports h = cc

pub kernel_laws : KernelLaws kernel
kernel_laws = record {
  created_empty = λ w j. refl;
  ctl_failed = λ op fd i w j failed. cc;
  ctl_added = λ fd i w j done. refl;
  ctl_modified = λ fd i old w j there. refl;
  ctl_deleted = λ fd i w j. refl;
  wait_registered = λ n timeout w j. refl;
  wait_bounded = λ n timeout w ready. rw⁻¹ (same_reports ready) (reports_bounded n (w 1));
  wait_reported = λ n timeout w j {e} ready here.
      let (at_1, watched) = reports_watched n (w 1) j {e = e} (rw (same_reports ready) here) in
      (1, at_1, watched);
}

abbrev pub arrays : Arrays
arrays = record {
  fresh_fired = λ n. replicate n (record { fd = pos 99; mask = ae_none });
  fresh_reports = λ n. replicate n (record {
    fd = pos 99;
    epollin = false;
    epollout = false;
    epollerr = false;
    epollhup = false;
  });
  length-fresh_fired = λ n. length-replicate n _;
  length-fresh_reports = λ n. length-replicate n _;
}

abbrev pub nothing_watched : World
nothing_watched j = none

abbrev pub reader : FileEvent
reader = record { mask = ae_readable; r_proc = some 0; w_proc = none; client_data = 0 }

abbrev pub state : EpollState
state = record { events_size = 2; events = arrays.fresh_reports 2 }

abbrev pub timer : ℕ → ℕ → TimeEvent
timer i sec = record {
  id = pos i;
  when_sec = pos sec;
  when_ms = pos 500;
  proc = some 7;
  timeup_proc = none;
  client_data = 0;
}

-- Descriptor 1 of two is read from; two timers run.
abbrev pub serving : EventLoop World
serving = record {
  max_fd = pos 1;
  fdset_size = 2;
  time_event_next_id = 2;
  last_time = pos 1000;
  events = no_file_event ∷ reader ∷ [];
  fired = arrays.fresh_fired 2;
  time_event_list = timer 1 1003 ∷ timer 0 1001 ∷ [];
  stop_flag = false;
  api_data = some state;
  bs_proc = none;
  world = λ j. if 1 == j then some (interest_of ae_readable) else none;
}

serving-watched : (j : ℕ) → kernel.registered serving.world j ≡ interest_at serving.events j
serving-watched zero = refl
serving-watched (suc zero) = refl
serving-watched (suc (suc j)) = ground arith

inactive_above : (j : ℕ) → 1 < j → is_active serving.events j ≡ false
inactive_above zero h = absurd (omega arith)
inactive_above (suc zero) h = absurd (omega arith)
inactive_above (suc (suc j)) h = refl

pub serving-WellFormed : WellFormed kernel serving
serving-WellFormed = record {
  sized = refl;
  top = (refl, inactive_above);
  watched = serving-watched;
}

pub serving-SameSize : SameSize serving state
serving-SameSize = record { opened = refl; reports = refl; fired = refl }

serving-has_procs :
    (n : ℕ) (fe : FileEvent)
    → get_elem? serving.events n ≡ some fe
    → (fe.mask.readable ≡ true → fe.r_proc ≢ none) × (fe.mask.writable ≡ true → fe.w_proc ≢ none)
serving-has_procs zero fe here = (λ h e. ground arith, λ h e. ground arith)
serving-has_procs (suc zero) fe here = (λ h e. ground arith, λ h e. ground arith)
serving-has_procs (suc (suc n)) fe here = cc

pub serving-IsServing : IsServing kernel serving
serving-IsServing = record {
  well_formed = serving-WellFormed;
  sizes = (state, serving-SameSize);
  has_procs = serving-has_procs;
}

-- Procedure 0 does not wait for its event any longer, procedure 1 waits to write as well, and there
-- are no others.
abbrev pub procs : Procs World
procs zero l fd client_data mask = del_file_event kernel l fd mask
procs (suc zero) l fd client_data mask = do
  (added, r) ← add_file_event kernel l fd ae_writable (some 1) client_data
  ok added
procs (suc (suc p)) l fd client_data mask = err null_pointer

added_in :
    {l after : EventLoop World} (r : Result (EventLoop World × ℤ))
    → ((out : EventLoop World) (status : ℤ) → r ≡ ok (out, status) → Ordered kernel l out)
    → (do (added, status) ← r; ok added) ≡ ok after
    → Ordered kernel l after
added_in (ok (out, status)) keeps done = rw⁻¹ (ok_eq done) (keeps out status refl)
added_in (err fault) keeps done = absurd (err_ok done)

pub procs-Keep : Keep kernel procs
procs-Keep zero l n client_data mask after v known done =
    del_file_event-Ordered kernel kernel_laws l v (pos n) mask done
procs-Keep (suc zero) l n client_data mask after v known done =
    added_in (add_file_event kernel l (pos n) ae_writable (some 1) client_data)
      (λ out status.
        add_file_event-Ordered kernel kernel_laws l v (pos n) ae_writable 1 client_data refl)
      done
procs-Keep (suc (suc p)) l n client_data mask after v known done = absurd (err_ok done)
