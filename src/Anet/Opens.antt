-- ===== src/Anet/Opens.antt =====
-- Which descriptors are open after a call.
use aspr1net.Base.{
  ℕ, Bool, true, false, Option, none, some, ◌≡◌, refl, Bytes, if◌then◌else◌, ◌==◌, ◌∙◌, arith,
  Bool-cases, inl, inr, ap, sym,
}
use aspr1net.Base.Int.{ℤ, pos}
use aspr1net.Anet.{
  SocketOption, Status, Os, so_reuseaddr, set_status, set_block, set_reuse_addr, close_failed,
  with_socket, and_then, or_else, create_socket, sock_stream,
}

-- The same descriptors are open in both worlds.
abbrev pub SameOpen : {W : Type 0} → Os W → W → W → Type 0
SameOpen os w w' = (j : ℕ) → os.opened w' j ≡ os.opened w j

-- The descriptor was not open, and is the only one opened.
abbrev pub OpensOne : {W : Type 0} → Os W → W → W → ℕ → Type 0
OpensOne os w w' fd =
    (os.opened w fd ≡ false)
    × ((j : ℕ) → os.opened w' j ≡ (if fd == j then true else os.opened w j))

-- The descriptor that is returned is the only one opened; without one, none is.
abbrev pub Opens : {W : Type 0} → Os W → W → W × Option ℕ → Type 0
Opens os w (w', none) = SameOpen os w w'
Opens os w (w', some fd) = OpensOne os w w' fd

-- What POSIX says of open descriptors.
pub record OsLaws {W : Type 0} (os : Os W) : Type 0 where
  pub socket_opens :
      (family socktype protocol : ℕ) (w : W) → Opens os w (os.socket family socktype protocol w)
  pub close_closes :
      (fd : ℕ) (w : W) (j : ℕ)
      → os.opened (os.close fd w) j ≡ (if fd == j then false else os.opened w j)
  pub setsockopt_keeps :
      (fd : ℕ) (option : SocketOption) (val : ℤ) (w : W)
      → SameOpen os w (os.setsockopt fd option val w).0
  pub getfl_keeps : (fd : ℕ) (w : W) → SameOpen os w (os.getfl fd w).0
  pub setfl_keeps : (fd : ℕ) (st : Status) (w : W) → SameOpen os w (os.setfl fd st w).0
  pub bind_keeps : (fd : ℕ) (a : Bytes) (w : W) → SameOpen os w (os.bind fd a w).0
  pub listen_keeps : (fd backlog : ℕ) (w : W) → SameOpen os w (os.listen fd backlog w).0
  pub connect_keeps : (fd : ℕ) (a : Bytes) (w : W) → SameOpen os w (os.connect fd a w).0
  pub getaddrinfo_keeps :
      (host : Option Bytes) (port : Option ℕ) (family : ℕ) (passive : Bool) (w : W)
      → SameOpen os w (os.getaddrinfo host port family passive w).0
  pub chmod_keeps : (path : Bytes) (perm : ℕ) (w : W) → SameOpen os w (os.chmod path perm w)

module _ {W : Type 0} (os : Os W) where
  pub SameOpen-refl : (w : W) → SameOpen os w w
  SameOpen-refl w j = refl

  pub if-Opens :
      (b : Bool) (w : W) (r r' : W × Option ℕ)
      → Opens os w r
      → Opens os w r'
      → Opens os w (if b then r else r')
  if-Opens true w r r' one other = one
  if-Opens false w r r' one other = other

  pub SameOpen-trans : (a b c : W) → SameOpen os a b → SameOpen os b c → SameOpen os a c
  SameOpen-trans a b c h k j = k j ∙ h j

  -- What is opened after a call that keeps the open descriptors is opened in all.
  pub Opens-after : (w w' : W) (r : W × Option ℕ) → SameOpen os w w' → Opens os w' r → Opens os w r
  Opens-after w w' (end, none) same h = SameOpen-trans w w' end same h
  Opens-after w w' (end, some fd) same (new, h) =
      (ground (arith, new, same fd), λ j. ground (arith, h j, same j))

  pub OpensOne-then :
      (w w' w'' : W) (fd : ℕ) → OpensOne os w w' fd → SameOpen os w' w'' → OpensOne os w w'' fd
  OpensOne-then w w' w'' fd (new, h) same = (new, λ j. same j ∙ h j)

  module _ (laws : OsLaws os) where
    -- A socket that is closed again leaves what was open before.
    pub SameOpen-close : (w w' : W) (fd : ℕ) → OpensOne os w w' fd → SameOpen os w (os.close fd w')
    SameOpen-close w w' fd (new, h) j = elim (Bool-cases (fd == j)) [
      | inl same ↦
          let e : fd ≡ j = ground arith in
          let gone : os.opened w j ≡ false = ap (os.opened w) (sym e) ∙ new in
          ground (arith, laws.close_closes fd w' j, same, gone)
      | inr other ↦ ground (arith, laws.close_closes fd w' j, h j, other)
    ]

    pub close_failed-Opens :
        (w : W) (fd : ℕ) (r : W × Bool) → OpensOne os w r.0 fd → Opens os w (close_failed os fd r)
    close_failed-Opens w fd (w', true) one = SameOpen-close w w' fd one
    close_failed-Opens w fd (w', false) one = one

    pub set_block_keeps :
        (fd : ℕ) (non_block : Bool) (w : W) → SameOpen os w (set_block os fd non_block w).0
    unfolding set_block
    set_block_keeps fd non_block w = status (os.getfl fd w) (laws.getfl_keeps fd w)
      where
        status :
            (r : W × Option Status)
            → SameOpen os w r.0
            → SameOpen os w (set_status os fd non_block r).0
        status (w', none) same = same
        status (w', some st) same = SameOpen-trans w w' _ same (laws.setfl_keeps fd _ w')

  pub with_socket-Opens :
      (w : W) (r : W × Option ℕ) (otherwise : W → W × Option ℕ) (next : ℕ → W → W × Option ℕ)
      → Opens os w r
      → ((w' : W) → Opens os w' (otherwise w'))
      → ((fd : ℕ) (w' : W) → OpensOne os w w' fd → Opens os w (next fd w'))
      → Opens os w (with_socket r otherwise next)
  with_socket-Opens w (w', none) otherwise next same rest go = Opens-after w w' _ same (rest w')
  with_socket-Opens w (w', some fd) otherwise next one rest go = go fd w' one

  pub and_then_keeps :
      (w : W) (r : W × Bool) (next : W → W × Bool)
      → SameOpen os w r.0
      → ((w' : W) → SameOpen os w' (next w').0)
      → SameOpen os w (and_then r next).0
  and_then_keeps w (w', true) next same go = same
  and_then_keeps w (w', false) next same go = SameOpen-trans w w' _ same (go w')

  pub or_else_keeps :
      (w : W) (r : W × Bool) (next : W → W × Bool)
      → SameOpen os w r.0
      → ((w' : W) → SameOpen os w' (next w').0)
      → SameOpen os w (or_else r next).0
  or_else_keeps w (w', true) next same go = SameOpen-trans w w' _ same (go w')
  or_else_keeps w (w', false) next same go = same

  -- `anetCreateSocket` returns the only socket that it opens, and closes it if it has to fail.
  pub create_socket-Opens :
      (laws : OsLaws os) (domain : ℕ) (w : W) → Opens os w (create_socket os domain w)
  unfolding create_socket
  create_socket-Opens laws domain w =
      with_socket-Opens w _ (λ w. (w, none)) (λ fd w. close_failed os fd (set_reuse_addr os fd w))
        (laws.socket_opens domain sock_stream 0 w) (λ w' j. refl)
        (λ fd w' one.
          close_failed-Opens laws w fd (set_reuse_addr os fd w')
            (OpensOne-then w w' _ fd one (laws.setsockopt_keeps fd so_reuseaddr (pos 1) w')))
