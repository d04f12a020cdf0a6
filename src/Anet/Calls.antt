-- ===== src/Anet/Calls.antt =====
-- The calls of anet.cpp that fix the arguments of others, and `anetKeepAlive`.
use aspr1net.Base.{ℕ, true, false, Bool, Bytes, Option, none, Result, if◌then◌else◌}
use aspr1net.Base.Int.{ℤ, pos, tdiv_ℤ, eqb_ℤ}
use aspr1net.Anet.{
  Os, af_inet, af_inet6, so_keepalive, tcp_keepidle, tcp_keepintvl, tcp_keepcnt, and_then,
  set_block, set_tcp_no_delay,
}
use aspr1net.Anet.Connect.{tcp_generic_connect, unix_generic_connect}
use aspr1net.Anet.Serve.{tcp_server}
use aspr1net.Anet.Transfer.{generic_accept}

module _ {W : Type 0} (os : Os W) where
  abbrev pub non_block : ℕ → W → W × Bool
  non_block fd w = set_block os fd true w

  abbrev pub block : ℕ → W → W × Bool
  block fd w = set_block os fd false w

  -- A third of the interval between two probes, but at least one second.
  abbrev probe_interval : ℤ → ℤ
  probe_interval interval = if eqb_ℤ (tdiv_ℤ interval 3) (pos 0) then pos 1 else tdiv_ℤ interval 3

  abbrev keep_alive : ℕ → ℤ → W → W × Bool
  keep_alive fd interval w = and_then (os.setsockopt fd so_keepalive (pos 1) w) (λ w.
      and_then (os.setsockopt fd tcp_keepidle interval w) (λ w.
        and_then (os.setsockopt fd tcp_keepintvl (probe_interval interval) w)
          (λ w. os.setsockopt fd tcp_keepcnt (pos 3) w)))

  abbrev pub enable_tcp_no_delay : ℕ → W → W × Bool
  enable_tcp_no_delay fd w = set_tcp_no_delay os fd (pos 1) w

  abbrev disable_tcp_no_delay : ℕ → W → W × Bool
  disable_tcp_no_delay fd w = set_tcp_no_delay os fd (pos 0) w

  abbrev pub tcp_connect : Bytes → ℕ → W → W × Option ℕ
  tcp_connect addr port w =
      tcp_generic_connect os (record { non_block = false; best_effort = false }) addr port none w

  abbrev tcp_non_block_connect : Bytes → ℕ → W → W × Option ℕ
  tcp_non_block_connect addr port w =
      tcp_generic_connect os (record { non_block = true; best_effort = false }) addr port none w

  abbrev tcp_non_block_bind_connect : Bytes → ℕ → Option Bytes → W → W × Option ℕ
  tcp_non_block_bind_connect addr port source w =
      tcp_generic_connect os (record { non_block = true; best_effort = false }) addr port source w

  abbrev tcp_non_block_best_effort_bind_connect : Bytes → ℕ → Option Bytes → W → W × Option ℕ
  tcp_non_block_best_effort_bind_connect addr port source w =
      tcp_generic_connect os (record { non_block = true; best_effort = true }) addr port source w

  abbrev unix_connect : Bytes → W → W × Option ℕ
  unix_connect path w =
      unix_generic_connect os (record { non_block = false; best_effort = false }) path w

  abbrev unix_non_block_connect : Bytes → W → W × Option ℕ
  unix_non_block_connect path w =
      unix_generic_connect os (record { non_block = true; best_effort = false }) path w

  abbrev pub tcp4_server : ℕ → Option Bytes → ℕ → W → W × Option ℕ
  tcp4_server port bindaddr backlog w = tcp_server os port bindaddr af_inet backlog w

  abbrev tcp6_server : ℕ → Option Bytes → ℕ → W → W × Option ℕ
  tcp6_server port bindaddr backlog w = tcp_server os port bindaddr af_inet6 backlog w

  -- The rounds are the fuel of `anetGenericAccept`.
  abbrev unix_accept : ℕ → ℕ → W → Result (W × Option ℕ)
  unix_accept rounds s w = generic_accept os rounds s w
