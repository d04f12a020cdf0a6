-- ===== src/Ae/Types.antt =====
-- ae.hpp: the masks, the events and the event loop; the constructor and the plain accessors of
-- ae.cpp. A procedure is known by a number, and `none` is `nullptr`; client data is a number.
-- A mask is its two bits, AE_READABLE and AE_WRITABLE.
use aspr1net.Base.{
  ℕ, Bool, true, false, not, ◌&&◌, ◌||◌, List, Option, none, some, Result, ok, err, out_of_bounds,
  get_elem?,
}
use aspr1net.Base.Int.{ℤ, pos, negsuc}

pub record Mask : Type 0 where
  pub readable : Bool
  pub writable : Bool

abbrev pub ae_none : Mask
ae_none = record { readable = false; writable = false }

abbrev pub ae_readable : Mask
ae_readable = record { readable = true; writable = false }

abbrev pub ae_writable : Mask
ae_writable = record { readable = false; writable = true }

-- `a | b`, `a & b`, `a & (~b)` and `a == AE_NONE`.
abbrev pub mask_or : Mask → Mask → Mask
mask_or a b = record { readable = a.readable || b.readable; writable = a.writable || b.writable }

abbrev pub mask_and : Mask → Mask → Mask
mask_and a b = record { readable = a.readable && b.readable; writable = a.writable && b.writable }

abbrev pub mask_without : Mask → Mask → Mask
mask_without a b = record {
  readable = a.readable && not b.readable;
  writable = a.writable && not b.writable;
}

abbrev pub is_none : Mask → Bool
is_none a = not (a.readable || a.writable)

pub record FileEvent : Type 0 where
  pub mask : Mask
  pub r_proc : Option ℕ
  pub w_proc : Option ℕ
  pub client_data : ℕ

-- `ae_file_event() = default`.
abbrev pub no_file_event : FileEvent
no_file_event = record { mask = ae_none; r_proc = none; w_proc = none; client_data = 0 }

pub record TimeEvent : Type 0 where
  pub id : ℤ
  pub when_sec : ℤ
  pub when_ms : ℤ
  pub proc : Option ℕ
  pub timeup_proc : Option ℕ
  pub client_data : ℕ

pub record FiredEvent : Type 0 where
  pub fd : ℤ
  pub mask : Mask

-- `epoll_event` as epoll_wait fills it in.
pub record Report : Type 0 where
  pub fd : ℤ
  pub epollin : Bool
  pub epollout : Bool
  pub epollerr : Bool
  pub epollhup : Bool

-- `ae_epoll_state`. The kernel's side of it is part of the world.
pub record EpollState : Type 0 where
  pub events_size : ℕ
  pub events : List Report

-- `W` is the world: all that the loop shares with the kernel and with the procedures it calls.
pub record EventLoop (W : Type 0) : Type 0 where
  pub max_fd : ℤ
  pub fdset_size : ℕ
  pub time_event_next_id : ℕ
  pub last_time : ℤ
  pub events : List FileEvent
  pub fired : List FiredEvent
  pub time_event_list : List TimeEvent
  pub stop_flag : Bool
  pub api_data : Option EpollState
  pub bs_proc : Option ℕ
  pub world : W

-- `_events[_fd]`; outside the array the access is undefined.
abbrev pub at_index {ℓ} : {A : Type ℓ} → Option A → Result A
at_index none = err out_of_bounds
at_index (some a) = ok a

abbrev pub read_event : List FileEvent → ℤ → Result FileEvent
read_event events (pos fd) = at_index (get_elem? events fd)
read_event events (negsuc n) = err out_of_bounds

module _ {W : Type 0} where
  -- `stop`, `fdset_size` and `set_bs_proc`.
  abbrev pub stop : EventLoop W → EventLoop W
  stop l = record l { stop_flag = true }

  abbrev pub fdset_size : EventLoop W → ℕ
  fdset_size l = l.fdset_size

  abbrev pub set_bs_proc : EventLoop W → Option ℕ → EventLoop W
  set_bs_proc l proc = record l { bs_proc = proc }
