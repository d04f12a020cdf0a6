-- ===== src/Ae/Epoll.antt =====
-- ae_epoll.hpp: the calls of epoll. The kernel is a parameter: what it does with `epoll_ctl` and
-- `epoll_wait`, and the interest list that these keep.
use aspr1net.Base.{
  get_elem?, ◌≢◌, ℕ, ◌+◌, ◌-◌, ◌*◌, ◌/◌, ◌%◌, ◌^◌, ◌≤◌, Bool, true, false, List, ◌++◌, Option, none,
  some, ◌≡◌, if◌then◌else◌, ◌==◌, ltb, length, drop,
}
use aspr1net.Base.Int.{ℤ, pos, negsuc, minus_one}
use aspr1net.Ae.Types.{Mask, Report, EpollState}

-- `epoll_event` as the source hands it to epoll_ctl: EPOLLIN and EPOLLOUT.
pub record Interest : Type 0 where
  pub epollin : Bool
  pub epollout : Bool

pub data Op : Type 0 where
  ctl_add ctl_mod ctl_del : Op

-- The kernel, over the world `W`.
pub record Kernel (W : Type 0) : Type 0 where
  -- epoll_create: its descriptor, or none for -1.
  pub epoll_create : W → W × Option ℕ
  -- epoll_ctl on a descriptor; the flag says that it returned -1.
  pub ctl : Op → ℕ → Interest → W → W × Bool
  -- epoll_wait with room for so many reports and a time limit in milliseconds; none is -1.
  pub wait : ℕ → ℤ → W → W × Option (List Report)
  -- time(nullptr).
  pub time : W → ℤ
  -- gettimeofday: seconds, and microseconds.
  pub gettimeofday : W → ℤ × ℕ
  -- The interest list.
  pub registered : W → ℕ → Option Interest

-- What epoll(7) says of the interest list.
pub record KernelLaws {W : Type 0} (k : Kernel W) : Type 0 where
  -- A new instance watches nothing, and without one nothing is watched.
  pub created_empty : (w : W) (j : ℕ) → k.registered (k.epoll_create w).0 j ≡ none
  -- A call that fails changes nothing.
  pub ctl_failed :
      (op : Op) (fd : ℕ) (i : Interest) (w : W) (j : ℕ)
      → (k.ctl op fd i w).1 ≡ true
      → k.registered (k.ctl op fd i w).0 j ≡ k.registered w j
  -- ADD enters a descriptor, with its events.
  pub ctl_added :
      (fd : ℕ) (i : Interest) (w : W) (j : ℕ)
      → (k.ctl ctl_add fd i w).1 ≡ false
      → k.registered (k.ctl ctl_add fd i w).0 j ≡ (if fd == j then some i else k.registered w j)
  -- MOD replaces the events of a descriptor that is in the list.
  pub ctl_modified :
      (fd : ℕ) (i old : Interest) (w : W) (j : ℕ)
      → k.registered w fd ≡ some old
      → k.registered (k.ctl ctl_mod fd i w).0 j ≡ (if fd == j then some i else k.registered w j)
  -- DEL takes a descriptor out of the list, if it is there.
  pub ctl_deleted :
      (fd : ℕ) (i : Interest) (w : W) (j : ℕ)
      → k.registered (k.ctl ctl_del fd i w).0 j ≡ (if fd == j then none else k.registered w j)
  -- epoll_wait leaves the interest list alone, and reports no more than it has room for.
  pub wait_registered :
      (n : ℕ) (timeout : ℤ) (w : W) (j : ℕ)
      → k.registered (k.wait n timeout w).0 j ≡ k.registered w j
  pub wait_bounded :
      (n : ℕ) (timeout : ℤ) (w : W) {rs : List Report}
      → (k.wait n timeout w).1 ≡ some rs
      → length rs ≤ n
  -- What is reported is in the list.
  pub wait_reported :
      (n : ℕ) (timeout : ℤ) (w : W) {rs : List Report} (j : ℕ) {e : Report}
      → (k.wait n timeout w).1 ≡ some rs
      → get_elem? rs j ≡ some e
      → (fd : ℕ) × (e.fd ≡ pos fd) × (k.registered w fd ≢ none)

-- `_ee.events`, from a mask.
abbrev pub interest_of : Mask → Interest
interest_of m = record { epollin = m.readable; epollout = m.writable }

-- A timeval: seconds and microseconds.
pub record Timeval : Type 0 where
  pub tv_sec : ℕ
  pub tv_usec : ℕ

-- The value of an int from its low 32 bits.
abbrev pub to_int : ℕ → ℤ
to_int n = let w = n % 2 ^ 32 in if ltb w (2 ^ 31) then pos w else negsuc (2 ^ 32 - w - 1)

-- The `_timeout` of `wait`: -1 for a null pointer, else milliseconds, as an int.
unfoldable pub timeout_of : Option Timeval → ℤ
timeout_of none = minus_one
timeout_of (some tv) = to_int (tv.tv_sec * 1000 + tv.tv_usec / 1000)

-- What epoll_wait leaves in the state's array: the reports, in front of what was there.
abbrev pub received : EpollState → Option (List Report) → EpollState
received s none = s
received s (some rs) = record s { events = rs ++ drop (length rs) s.events }

abbrev pub count_of : Option (List Report) → ℤ
count_of none = minus_one
count_of (some rs) = pos (length rs)

module _ {W : Type 0} (k : Kernel W) where
  -- The flag is the test `== -1`.
  unfoldable pub add_event : ℕ → Mask → W → W × Bool
  add_event fd mask w = k.ctl ctl_add fd (interest_of mask) w

  unfoldable pub mod_event : ℕ → Mask → W → W
  mod_event fd mask w = (k.ctl ctl_mod fd (interest_of mask) w).0

  unfoldable pub del_event : ℕ → Mask → W → W
  del_event fd mask w = (k.ctl ctl_del fd (interest_of mask) w).0

  -- `wait`, with the number of reports or -1.
  unfoldable pub wait : EpollState → Option Timeval → W → W × EpollState × ℤ
  wait s tvp w =
      let (w', reports) = k.wait s.events_size (timeout_of tvp) w in
      (w', received s reports, count_of reports)
