-- ===== src/Anet.antt =====
-- anet.cpp: the layer over sockets. The operating system is a parameter: its calls over a type of
-- worlds, and which descriptors are open in a world. A flag says that a call returned -1, and
-- `none` stands for the descriptor -1. The texts of errors are left out.
pub mod Opens
pub mod Connect
pub mod Serve
pub mod Transfer
pub mod Write
pub mod Calls
pub mod Names
mod Tests
use aspr1net.Base.{
  ℕ, ◌*◌, Bool, true, false, List, Option, none, some, ◌≡◌, Bytes, take, if◌then◌else◌, ◌==◌,
}
use aspr1net.Base.Int.{ℤ, pos, tdiv_ℤ, tmod_ℤ, scale_ℤ}

-- A socket option, with the level it stands under.
pub data SocketOption : Type 0 where
  so_reuseaddr so_keepalive tcp_nodelay so_sndbuf ipv6_v6only : SocketOption
  tcp_keepidle tcp_keepintvl tcp_keepcnt : SocketOption

-- The file status flags: O_NONBLOCK, and the others.
pub record Status : Type 0 where
  pub non_block : Bool
  pub others : ℕ

-- What getaddrinfo finds.
pub record Address : Type 0 where
  pub family : ℕ
  pub socktype : ℕ
  pub protocol : ℕ
  pub sockaddr : Bytes

-- connect returns 0, or -1 with EINPROGRESS or with another error.
pub data Connection : Type 0 where
  connected in_progress refused : Connection

-- accept returns a descriptor, or -1 with EINTR or with another error.
pub data Acceptance : Type 0 where
  accepted : ℕ → Acceptance
  interrupted failed : Acceptance

pub record Os (W : Type 0) : Type 0 where
  pub socket : ℕ → ℕ → ℕ → W → W × Option ℕ
  pub close : ℕ → W → W
  pub setsockopt : ℕ → SocketOption → ℤ → W → W × Bool
  -- setsockopt with SO_SNDTIMEO, which takes seconds and microseconds.
  pub set_sndtimeo : ℕ → ℤ → ℤ → W → W × Bool
  -- fcntl with F_GETFL and F_SETFL.
  pub getfl : ℕ → W → W × Option Status
  pub setfl : ℕ → Status → W → W × Bool
  pub bind : ℕ → Bytes → W → W × Bool
  pub listen : ℕ → ℕ → W → W × Bool
  pub connect : ℕ → Bytes → W → W × Connection
  pub accept : ℕ → W → W × Acceptance
  -- A host, a port, a family, and whether AI_PASSIVE is set.
  pub getaddrinfo : Option Bytes → Option ℕ → ℕ → Bool → W → W × Option (List Address)
  pub chmod : Bytes → ℕ → W → W
  -- At most so many bytes; no bytes at the end of the file.
  pub read : ℕ → ℕ → W → W × Option Bytes
  pub write : ℕ → Bytes → W → W × Option ℕ
  pub opened : W → ℕ → Bool
  -- The bytes that can still be read, and those written.
  pub pending : W → ℕ → Bytes
  pub sent : W → ℕ → Bytes

abbrev pub sock_stream : ℕ
sock_stream = 1

abbrev pub af_unspec : ℕ
af_unspec = 0

abbrev pub af_local : ℕ
af_local = 1

abbrev pub af_inet : ℕ
af_inet = 2

abbrev pub af_inet6 : ℕ
af_inet6 = 10

-- `sun_path` has room for 107 bytes of a path and a NUL.
abbrev pub sun_path : Bytes → Bytes
sun_path path = take 107 path

-- The next step, if the last one did not fail; and the next one, if it did.
abbrev pub and_then : {W : Type 0} → W × Bool → (W → W × Bool) → W × Bool
and_then (w, true) next = (w, true)
and_then (w, false) next = next w

abbrev pub or_else : {W : Type 0} → W × Bool → (W → W × Bool) → W × Bool
or_else (w, true) next = next w
or_else (w, false) next = (w, false)

-- `if ((s = socket(...)) == -1) { continue; }`, and what follows.
abbrev pub with_socket :
    {W : Type 0} → W × Option ℕ → (W → W × Option ℕ) → (ℕ → W → W × Option ℕ) → W × Option ℕ
with_socket (w, none) otherwise next = otherwise w
with_socket (w, some fd) otherwise next = next fd w

module _ {W : Type 0} (os : Os W) where
  abbrev pub set_status : ℕ → Bool → W × Option Status → W × Bool
  set_status fd non_block (w, none) = (w, true)
  set_status fd non_block (w, some st) = os.setfl fd (record st { non_block = non_block }) w

  unfoldable pub set_block : ℕ → Bool → W → W × Bool
  set_block fd non_block w = set_status fd non_block (os.getfl fd w)

  abbrev pub set_reuse_addr : ℕ → W → W × Bool
  set_reuse_addr fd w = os.setsockopt fd so_reuseaddr (pos 1) w

  -- A failed step closes the socket.
  abbrev pub close_failed : ℕ → W × Bool → W × Option ℕ
  close_failed fd (w, true) = (os.close fd w, none)
  close_failed fd (w, false) = (w, some fd)

  unfoldable pub create_socket : ℕ → W → W × Option ℕ
  create_socket domain w =
      with_socket (os.socket domain sock_stream 0 w) (λ w. (w, none))
        (λ fd w. close_failed fd (set_reuse_addr fd w))

  -- The socket options that the layer sets, each with its flag.
  abbrev tcp_keep_alive : ℕ → W → W × Bool
  tcp_keep_alive fd w = os.setsockopt fd so_keepalive (pos 1) w

  abbrev pub set_tcp_no_delay : ℕ → ℤ → W → W × Bool
  set_tcp_no_delay fd val w = os.setsockopt fd tcp_nodelay val w

  abbrev set_send_buffer : ℕ → ℤ → W → W × Bool
  set_send_buffer fd buffsize w = os.setsockopt fd so_sndbuf buffsize w

  -- Seconds and microseconds, from milliseconds.
  abbrev send_timeout : ℕ → ℤ → W → W × Bool
  send_timeout fd ms w = os.set_sndtimeo fd (tdiv_ℤ ms 1000) (scale_ℤ 1000 (tmod_ℤ ms 1000)) w
