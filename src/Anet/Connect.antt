-- ===== src/Anet/Connect.antt =====
-- `anetTcpGenericConnect` and `anetUnixGenericConnect`.
use aspr1net.Base.{
  subst, ℕ, Bool, true, false, List, [], ◌∷◌, Option, none, some, ◌≡◌, refl, Bytes, if◌then◌else◌,
  ◌∙◌, arith,
}
use aspr1net.Base.Int.{pos}
use aspr1net.Anet.{
  Address, Connection, connected, in_progress, refused, Os, af_unspec, af_local, and_then, or_else,
  with_socket, set_block, sun_path, set_reuse_addr, so_reuseaddr, create_socket,
}
use aspr1net.Anet.Opens.{
  SameOpen, OpensOne, Opens, OsLaws, SameOpen-refl, if-Opens, SameOpen-trans, SameOpen-close,
  Opens-after, OpensOne-then, set_block_keeps, with_socket-Opens, and_then_keeps, or_else_keeps,
  create_socket-Opens,
}

-- ANET_CONNECT_NONBLOCK and ANET_CONNECT_BE_BINDING.
pub record ConnectFlags : Type 0 where
  pub non_block : Bool
  pub best_effort : Bool

module _ {W : Type 0} (os : Os W) where
  -- The loop over `bservinfo`.
  unfoldable pub bind_any : ℕ → List Address → W → W × Bool
  bind_any fd [] w = (w, true)
  bind_any fd (b ∷ rest) w = or_else (os.bind fd b.sockaddr w) (bind_any fd rest)

  abbrev pub bind_found : ℕ → W × Option (List Address) → W × Bool
  bind_found fd (w, none) = (w, true)
  bind_found fd (w, some addresses) = bind_any fd addresses w

  -- `if (source_addr) { ... }`
  abbrev pub bind_source : ℕ → Option Bytes → W → W × Bool
  bind_source fd none w = (w, false)
  bind_source fd (some source) w =
      bind_found fd (os.getaddrinfo (some source) none af_unspec false w)

  -- From the socket to its connection; each failure goes to `error`.
  unfoldable pub prepare : ConnectFlags → Option Bytes → ℕ → W → W × Bool
  prepare flags source fd w = and_then (set_reuse_addr os fd w) (λ w.
      and_then (if flags.non_block then set_block os fd true w else (w, false))
        (λ w. bind_source fd source w))

  -- connect, and the next address after a refusal.
  abbrev pub connected_or : ConnectFlags → ℕ → (W → W × Option ℕ) → W × Connection → W × Option ℕ
  connected_or flags fd next (w, connected) = (w, some fd)
  connected_or flags fd next (w, in_progress) =
      let closed = next (os.close fd w) in if flags.non_block then (w, some fd) else closed
  connected_or flags fd next (w, refused) = next (os.close fd w)

  abbrev pub connect_prepared :
      ConnectFlags → ℕ → Bytes → (W → W × Option ℕ) → W × Bool → W × Option ℕ
  connect_prepared flags fd sockaddr next (w, true) = (os.close fd w, none)
  connect_prepared flags fd sockaddr next (w, false) =
      connected_or flags fd next (os.connect fd sockaddr w)

  -- The loop over `servinfo`.
  unfoldable pub connect_each : ConnectFlags → Option Bytes → List Address → W → W × Option ℕ
  connect_each flags source [] w = (w, none)
  connect_each flags source (a ∷ rest) w =
      with_socket (os.socket a.family a.socktype a.protocol w) (connect_each flags source rest)
        (λ fd w.
          connect_prepared flags fd a.sockaddr (connect_each flags source rest)
            (prepare flags source fd w))

  -- Best-effort binding: again without a source address.
  abbrev pub retry : (W → W × Option ℕ) → W × Option ℕ → W × Option ℕ
  retry again (w, none) = again w
  retry again (w, some fd) = (w, some fd)

  abbrev pub connect_found :
      ConnectFlags → Option Bytes → (W → W × Option ℕ) → W × Option (List Address) → W × Option ℕ
  connect_found flags source again (w, none) = (w, none)
  connect_found flags source again (w, some addresses) =
      retry again (connect_each flags source addresses w)

  abbrev pub connect_unbound : ConnectFlags → Bytes → ℕ → W → W × Option ℕ
  connect_unbound flags host port w =
      connect_found flags none (λ w. (w, none))
        (os.getaddrinfo (some host) (some port) af_unspec false w)

  unfoldable pub tcp_generic_connect : ConnectFlags → Bytes → ℕ → Option Bytes → W → W × Option ℕ
  tcp_generic_connect flags host port none w = connect_unbound flags host port w
  tcp_generic_connect flags host port (some source) w =
      connect_found flags (some source)
        (λ w. if flags.best_effort then connect_unbound flags host port w else (w, none))
        (os.getaddrinfo (some host) (some port) af_unspec false w)

  -- A failure to make the socket non-blocking returns without a close.
  abbrev pub unix_blocked : ConnectFlags → Bytes → ℕ → W × Bool → W × Option ℕ
  unix_blocked flags path fd (w, true) = (w, none)
  unix_blocked flags path fd (w, false) =
      connected_or flags fd (λ w. (w, none)) (os.connect fd (sun_path path) w)

  unfoldable pub unix_generic_connect : ConnectFlags → Bytes → W → W × Option ℕ
  unix_generic_connect flags path w =
      with_socket (create_socket os af_local w) (λ w. (w, none))
        (λ fd w.
          unix_blocked flags path fd
            (if flags.non_block then set_block os fd true w else (w, false)))

module _ {W : Type 0} (os : Os W) (laws : OsLaws os) where
  bind_any_keeps :
      (fd : ℕ) (addresses : List Address) (w : W) → SameOpen os w (bind_any os fd addresses w).0
  unfolding bind_any
  bind_any_keeps fd [] w = SameOpen-refl os w
  bind_any_keeps fd (b ∷ rest) w =
      or_else_keeps os w (os.bind fd b.sockaddr w) (bind_any os fd rest)
        (laws.bind_keeps fd b.sockaddr w) (bind_any_keeps fd rest)

  bind_found_keeps :
      (w : W) (fd : ℕ) (r : W × Option (List Address))
      → SameOpen os w r.0
      → SameOpen os w (bind_found os fd r).0
  bind_found_keeps w fd (w', none) same = same
  bind_found_keeps w fd (w', some addresses) same =
      SameOpen-trans os w w' _ same (bind_any_keeps fd addresses w')

  bind_source_keeps :
      (fd : ℕ) (source : Option Bytes) (w : W) → SameOpen os w (bind_source os fd source w).0
  bind_source_keeps fd none w = SameOpen-refl os w
  bind_source_keeps fd (some source) w =
      bind_found_keeps w fd _ (laws.getaddrinfo_keeps (some source) none af_unspec false w)

  pub block_keeps :
      (non_block : Bool) (fd : ℕ) (w : W)
      → SameOpen os w (if non_block then set_block os fd true w else (w, false)).0
  block_keeps true fd w = set_block_keeps os laws fd true w
  block_keeps false fd w = SameOpen-refl os w

  prepare_keeps :
      (flags : ConnectFlags) (source : Option Bytes) (fd : ℕ) (w : W)
      → SameOpen os w (prepare os flags source fd w).0
  unfolding prepare
  prepare_keeps flags source fd w =
      and_then_keeps os w (set_reuse_addr os fd w) _
        (laws.setsockopt_keeps fd so_reuseaddr (pos 1) w)
        (λ w'.
          and_then_keeps os w' _ (bind_source os fd source) (block_keeps flags.non_block fd w')
            (bind_source_keeps fd source))

  connected_or-Opens :
      (flags : ConnectFlags) (w : W) (fd : ℕ) (next : W → W × Option ℕ) (r : W × Connection)
      → OpensOne os w r.0 fd
      → ((w' : W) → Opens os w' (next w'))
      → Opens os w (connected_or os flags fd next r)
  connected_or-Opens flags w fd next (w', connected) one rest = one
  connected_or-Opens flags w fd next (w', in_progress) one rest =
      if-Opens os flags.non_block w (w', some fd) (next (os.close fd w')) one
        (Opens-after os w _ _ (SameOpen-close os laws w w' fd one) (rest (os.close fd w')))
  connected_or-Opens flags w fd next (w', refused) one rest =
      Opens-after os w _ _ (SameOpen-close os laws w w' fd one) (rest (os.close fd w'))

  connect_prepared-Opens :
      (flags : ConnectFlags) (w : W) (fd : ℕ) (sockaddr : Bytes) (next : W → W × Option ℕ)
      (r : W × Bool)
      → OpensOne os w r.0 fd
      → ((w' : W) → Opens os w' (next w'))
      → Opens os w (connect_prepared os flags fd sockaddr next r)
  connect_prepared-Opens flags w fd sockaddr next (w', true) one rest =
      SameOpen-close os laws w w' fd one
  connect_prepared-Opens flags w fd sockaddr next (w', false) one rest =
      connected_or-Opens flags w fd next (os.connect fd sockaddr w')
        (OpensOne-then os w w' _ fd one (laws.connect_keeps fd sockaddr w')) rest

  connect_each-Opens :
      (flags : ConnectFlags) (source : Option Bytes) (addresses : List Address) (w : W)
      → Opens os w (connect_each os flags source addresses w)
  unfolding connect_each
  connect_each-Opens flags source [] w = SameOpen-refl os w
  connect_each-Opens flags source (a ∷ rest) w =
      with_socket-Opens os w _ (connect_each os flags source rest) _
        (laws.socket_opens a.family a.socktype a.protocol w) (connect_each-Opens flags source rest)
        (λ fd w' one.
          connect_prepared-Opens flags w fd a.sockaddr _ (prepare os flags source fd w')
            (OpensOne-then os w w' _ fd one (prepare_keeps flags source fd w'))
            (connect_each-Opens flags source rest))

  retry-Opens :
      (w : W) (again : W → W × Option ℕ) (r : W × Option ℕ)
      → Opens os w r
      → ((w' : W) → Opens os w' (again w'))
      → Opens os w (retry os again r)
  retry-Opens w again (w', none) same rest = Opens-after os w w' _ same (rest w')
  retry-Opens w again (w', some fd) one rest = one

  connect_found-Opens :
      (flags : ConnectFlags) (source : Option Bytes) (w : W) (again : W → W × Option ℕ)
      (r : W × Option (List Address))
      → SameOpen os w r.0
      → ((w' : W) → Opens os w' (again w'))
      → Opens os w (connect_found os flags source again r)
  connect_found-Opens flags source w again (w', none) same rest = same
  connect_found-Opens flags source w again (w', some addresses) same rest =
      Opens-after os w w' _ same
        (retry-Opens w' again _ (connect_each-Opens flags source addresses w') rest)

  connect_unbound-Opens :
      (flags : ConnectFlags) (host : Bytes) (port : ℕ) (w : W)
      → Opens os w (connect_unbound os flags host port w)
  connect_unbound-Opens flags host port w =
      connect_found-Opens flags none w (λ w. (w, none)) _
        (laws.getaddrinfo_keeps (some host) (some port) af_unspec false w) (λ w' j. refl)

  -- `anetTcpGenericConnect` leaks no descriptor: whatever the system calls return, the socket that it
  -- returns is the only one it leaves open, and was not open before; if it fails, it leaves just those
  -- open that were.
  pub tcp_generic_connect-Opens :
      (flags : ConnectFlags) (host : Bytes) (port : ℕ) (source : Option Bytes) (w : W)
      → Opens os w (tcp_generic_connect os flags host port source w)
  unfolding tcp_generic_connect
  tcp_generic_connect-Opens flags host port none w = connect_unbound-Opens flags host port w
  tcp_generic_connect-Opens flags host port (some source) w =
      connect_found-Opens flags (some source) w _ _
        (laws.getaddrinfo_keeps (some host) (some port) af_unspec false w)
        (λ w'.
          if-Opens os flags.best_effort w' (connect_unbound os flags host port w') (w', none)
            (connect_unbound-Opens flags host port w') (SameOpen-refl os w'))

unix_blocked_failed :
    {W : Type 0} (os : Os W) (flags : ConnectFlags) (path : Bytes) (fd : ℕ) (r : W × Bool)
    → r.1 ≡ true
    → unix_blocked os flags path fd r ≡ (r.0, none)
unix_blocked_failed os flags path fd (w, true) stuck = refl
unix_blocked_failed os flags path fd (w, false) stuck = cc

-- `anetUnixGenericConnect` leaks its socket, if that was created and cannot be made non-blocking: it
-- returns -1, and the socket, which was not open before, is open.
pub unix_generic_connect_leaks :
    {W : Type 0} (os : Os W) (laws : OsLaws os) (path : Bytes) (w : W) {w1 : W} {fd : ℕ}
    → create_socket os af_local w ≡ (w1, some fd)
    → (set_block os fd true w1).1 ≡ true
    → (end : W) × (unix_generic_connect os (record { non_block = true; best_effort = false }) path w
        ≡ (end, none))
      × (os.opened w fd ≡ false)
      × (os.opened end fd ≡ true)
unfolding unix_generic_connect
unix_generic_connect_leaks os laws path w {w1} {fd} made stuck =
    let flags : ConnectFlags = record { non_block = true; best_effort = false } in
    let (new, opened) : OpensOne os w w1 fd =
      subst (Opens os w) made (create_socket-Opens os laws af_local w) in
    (
      (set_block os fd true w1).0,
      rw made (unix_blocked_failed os flags path fd (set_block os fd true w1) stuck),
      new,
      set_block_keeps os laws fd true w1 fd ∙ ground (arith, opened fd),
    )
