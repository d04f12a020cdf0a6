-- ===== src/Anet/Serve.antt =====
-- `_anetTcpServer` and `anetUnixServer`.
use aspr1net.Base.{
  subst, ap, sym, ℕ, Bool, true, false, not, List, [], ◌∷◌, Option, none, some, ◌≡◌, refl, Bytes,
  if◌then◌else◌, ◌==◌, ◌∙◌, arith,
}
use aspr1net.Base.Int.{pos}
use aspr1net.Anet.{
  Address, Os, af_inet, af_inet6, af_local, so_reuseaddr, ipv6_v6only, and_then, with_socket,
  set_reuse_addr, sun_path, create_socket,
}
use aspr1net.Anet.Opens.{
  SameOpen, OpensOne, Opens, OsLaws, SameOpen-refl, SameOpen-close, Opens-after, OpensOne-then,
  if-Opens, with_socket-Opens, create_socket-Opens,
}

module _ {W : Type 0} (os : Os W) where
  -- The step, with a close if it failed.
  abbrev pub or_close : ℕ → W × Bool → W × Bool
  or_close fd (w, true) = (os.close fd w, true)
  or_close fd (w, false) = (w, false)

  -- `anetListen`.
  unfoldable pub listen_on : ℕ → Bytes → ℕ → W → W × Bool
  listen_on fd sockaddr backlog w =
      and_then (or_close fd (os.bind fd sockaddr w)) (λ w. or_close fd (os.listen fd backlog w))

  unfoldable pub v6_only : ℕ → W → W × Bool
  v6_only fd w = or_close fd (os.setsockopt fd ipv6_v6only (pos 1) w)

  -- `goto error` sets `s`, and closes nothing.
  abbrev pub served : ℕ → W × Bool → W × Option ℕ
  served fd (w, true) = (w, none)
  served fd (w, false) = (w, some fd)

  unfoldable pub serve_on : ℕ → ℕ → Bytes → ℕ → W → W × Bool
  serve_on family backlog sockaddr fd w =
      and_then (if family == af_inet6 then v6_only fd w else (w, false))
        (λ w. and_then (set_reuse_addr os fd w) (λ w. listen_on fd sockaddr backlog w))

  -- The loop over `servinfo`.
  unfoldable pub server_each : ℕ → ℕ → List Address → W → W × Option ℕ
  server_each family backlog [] w = (w, none)
  server_each family backlog (a ∷ rest) w =
      with_socket (os.socket a.family a.socktype a.protocol w) (server_each family backlog rest)
        (λ fd w. served fd (serve_on family backlog a.sockaddr fd w))

  abbrev pub server_found : ℕ → ℕ → W × Option (List Address) → W × Option ℕ
  server_found family backlog (w, none) = (w, none)
  server_found family backlog (w, some addresses) = server_each family backlog addresses w

  -- `_anetTcpServer`.
  unfoldable pub tcp_server : ℕ → Option Bytes → ℕ → ℕ → W → W × Option ℕ
  tcp_server port bindaddr family backlog w =
      server_found family backlog (os.getaddrinfo bindaddr (some port) family true w)

  abbrev pub chmod_served : Bytes → ℕ → W × Option ℕ → W × Option ℕ
  chmod_served path perm (w, none) = (w, none)
  chmod_served path perm (w, some fd) =
      if not (perm == 0) then (os.chmod path perm w, some fd) else (w, some fd)

  unfoldable pub unix_server : Bytes → ℕ → ℕ → W → W × Option ℕ
  unix_server path perm backlog w =
      with_socket (create_socket os af_local w) (λ w. (w, none))
        (λ fd w.
          chmod_served (sun_path path) perm (served fd (listen_on fd (sun_path path) backlog w)))

module _ {W : Type 0} (os : Os W) (laws : OsLaws os) where
  -- What a step of a server leaves: with its socket closed, or still the only one opened.
  abbrev ClosesFailed : W → ℕ → W × Bool → Type 0
  ClosesFailed w fd (w', true) = SameOpen os w w'
  ClosesFailed w fd (w', false) = OpensOne os w w' fd

  or_close-Closes :
      (w : W) (fd : ℕ) (r : W × Bool) → OpensOne os w r.0 fd → ClosesFailed w fd (or_close os fd r)
  or_close-Closes w fd (w', true) one = SameOpen-close os laws w w' fd one
  or_close-Closes w fd (w', false) one = one

  and_then-Closes :
      (w : W) (fd : ℕ) (r : W × Bool) (next : W → W × Bool)
      → ClosesFailed w fd r
      → ((w' : W) → OpensOne os w w' fd → ClosesFailed w fd (next w'))
      → ClosesFailed w fd (and_then r next)
  and_then-Closes w fd (w', true) next same go = same
  and_then-Closes w fd (w', false) next one go = go w' one

  served-Opens : (w : W) (fd : ℕ) (r : W × Bool) → ClosesFailed w fd r → Opens os w (served os fd r)
  served-Opens w fd (w', true) same = same
  served-Opens w fd (w', false) one = one

  listen_on-Closes :
      (w w' : W) (fd : ℕ) (sockaddr : Bytes) (backlog : ℕ)
      → OpensOne os w w' fd
      → ClosesFailed w fd (listen_on os fd sockaddr backlog w')
  unfolding listen_on
  listen_on-Closes w w' fd sockaddr backlog one =
      and_then-Closes w fd (or_close os fd (os.bind fd sockaddr w')) _
        (or_close-Closes w fd _ (OpensOne-then os w w' _ fd one (laws.bind_keeps fd sockaddr w')))
        (λ x one'.
          or_close-Closes w fd (os.listen fd backlog x)
            (OpensOne-then os w x _ fd one' (laws.listen_keeps fd backlog x)))

  -- A reuse of the address that did not fail.
  reused-Closes :
      (w : W) (fd : ℕ) (r : W × Bool) → r.1 ≡ false → OpensOne os w r.0 fd → ClosesFailed w fd r
  reused-Closes w fd (w', true) fine one = cc
  reused-Closes w fd (w', false) fine one = one

  v6-Closes :
      (b : Bool) (w w' : W) (fd : ℕ)
      → OpensOne os w w' fd
      → ClosesFailed w fd (if b then v6_only os fd w' else (w', false))
  unfolding v6_only
  v6-Closes true w w' fd one =
      or_close-Closes w fd _
        (OpensOne-then os w w' _ fd one (laws.setsockopt_keeps fd ipv6_v6only (pos 1) w'))
  v6-Closes false w w' fd one = one

  serve_on-Closes :
      ((fd : ℕ) (w : W) → (set_reuse_addr os fd w).1 ≡ false)
      → (w w' : W) (family backlog : ℕ) (sockaddr : Bytes) (fd : ℕ) → OpensOne os w w' fd
      → ClosesFailed w fd (serve_on os family backlog sockaddr fd w')
  unfolding serve_on
  serve_on-Closes reuses w w' family backlog sockaddr fd one =
      and_then-Closes w fd (if family == af_inet6 then v6_only os fd w' else (w', false)) _
        (v6-Closes (family == af_inet6) w w' fd one)
        (λ x one'.
          and_then-Closes w fd (set_reuse_addr os fd x) _
            (reused-Closes w fd (set_reuse_addr os fd x) (reuses fd x)
              (OpensOne-then os w x _ fd one' (laws.setsockopt_keeps fd so_reuseaddr (pos 1) x)))
            (λ y one''. listen_on-Closes w y fd sockaddr backlog one''))

  server_each-Opens :
      ((fd : ℕ) (w : W) → (set_reuse_addr os fd w).1 ≡ false)
      → (family backlog : ℕ) (addresses : List Address) (w : W)
      → Opens os w (server_each os family backlog addresses w)
  unfolding server_each
  server_each-Opens reuses family backlog [] w = SameOpen-refl os w
  server_each-Opens reuses family backlog (a ∷ rest) w =
      with_socket-Opens os w _ (server_each os family backlog rest) _
        (laws.socket_opens a.family a.socktype a.protocol w)
        (server_each-Opens reuses family backlog rest)
        (λ fd w' one.
          served-Opens w fd (serve_on os family backlog a.sockaddr fd w')
            (serve_on-Closes reuses w w' family backlog a.sockaddr fd one))

  server_found-Opens :
      ((fd : ℕ) (w : W) → (set_reuse_addr os fd w).1 ≡ false)
      → (family backlog : ℕ) (w : W) (r : W × Option (List Address)) → SameOpen os w r.0
      → Opens os w (server_found os family backlog r)
  server_found-Opens reuses family backlog w (w', none) same = same
  server_found-Opens reuses family backlog w (w', some addresses) same =
      Opens-after os w w' _ same (server_each-Opens reuses family backlog addresses w')

  -- `_anetTcpServer` leaks no descriptor as long as SO_REUSEADDR can be set: the socket that it
  -- returns is the only one it leaves open, and if it fails, it leaves just those open that were.
  pub tcp_server-Opens :
      ((fd : ℕ) (w : W) → (set_reuse_addr os fd w).1 ≡ false)
      → (port : ℕ) (bindaddr : Option Bytes) (family backlog : ℕ) (w : W)
      → Opens os w (tcp_server os port bindaddr family backlog w)
  unfolding tcp_server
  tcp_server-Opens reuses port bindaddr family backlog w =
      server_found-Opens reuses family backlog w _
        (laws.getaddrinfo_keeps bindaddr (some port) family true w)

  chmod_served-Opens :
      (w : W) (path : Bytes) (perm : ℕ) (r : W × Option ℕ)
      → Opens os w r
      → Opens os w (chmod_served os path perm r)
  chmod_served-Opens w path perm (w', none) same = same
  chmod_served-Opens w path perm (w', some fd) one =
      if-Opens os (not (perm == 0)) w (os.chmod path perm w', some fd) (w', some fd)
        (OpensOne-then os w w' _ fd one (laws.chmod_keeps path perm w')) one

  -- `anetUnixServer` leaks no descriptor, whatever the system calls return.
  pub unix_server-Opens :
      (path : Bytes) (perm backlog : ℕ) (w : W) → Opens os w (unix_server os path perm backlog w)
  unfolding unix_server
  unix_server-Opens path perm backlog w =
      with_socket-Opens os w _ (λ w. (w, none)) _ (create_socket-Opens os laws af_local w)
        (SameOpen-refl os)
        (λ fd w' one. chmod_served-Opens w (sun_path path) perm _ (
          served-Opens w fd (listen_on os fd (sun_path path) backlog w')
            (listen_on-Closes w w' fd (sun_path path) backlog one)))

served_failed :
    {W : Type 0} (os : Os W) (fd : ℕ) (r : W × Bool) → r.1 ≡ true → served os fd r ≡ (r.0, none)
served_failed os fd (w, true) bad = refl
served_failed os fd (w, false) bad = cc

and_then_failed :
    {W : Type 0} (r : W × Bool) (next : W → W × Bool) → r.1 ≡ true → and_then r next ≡ (r.0, true)
and_then_failed (w, true) next bad = refl
and_then_failed (w, false) next bad = cc

-- `_anetTcpServer` leaks its socket, if SO_REUSEADDR cannot be set on it: for an IPv4 address it then
-- returns -1, and the socket, which was not open before, is open.
pub tcp_server_leaks :
    {W : Type 0} (os : Os W) (laws : OsLaws os) (port : ℕ) (bindaddr : Option Bytes) (backlog : ℕ)
    (w : W) {w1 w2 : W} {a : Address} {rest : List Address} {fd : ℕ}
    → os.getaddrinfo bindaddr (some port) af_inet true w ≡ (w1, some (a ∷ rest))
    → os.socket a.family a.socktype a.protocol w1 ≡ (w2, some fd)
    → (set_reuse_addr os fd w2).1 ≡ true
    → (end : W) × (tcp_server os port bindaddr af_inet backlog w ≡ (end, none))
      × (os.opened w fd ≡ false)
      × (os.opened end fd ≡ true)
unfolding tcp_server server_each serve_on
tcp_server_leaks os laws port bindaddr backlog w {w1} {w2} {a} {rest} {fd} found made bad =
    let (new, opened) : OpensOne os w1 w2 fd =
      subst (Opens os w1) made (laws.socket_opens a.family a.socktype a.protocol w1) in
    let same : SameOpen os w w1 =
      subst (λ r. SameOpen os w r.0) found
        (laws.getaddrinfo_keeps bindaddr (some port) af_inet true w) in
    (
      (set_reuse_addr os fd w2).0,
      rw (found, made) (ap (served os fd) (and_then_failed (set_reuse_addr os fd w2) _ bad)),
      sym (same fd) ∙ new,
      laws.setsockopt_keeps fd so_reuseaddr (pos 1) w2 fd ∙ ground (arith, opened fd),
    )
