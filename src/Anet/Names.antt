-- ===== src/Anet/Names.antt =====
-- The addresses of sockets as texts: `anetPeerToString`, `anetSockName` and their formats. What
-- getpeername, getsockname and inet_ntop give is a parameter.
use aspr1net.Base.{
  ℕ, zero, suc, ◌+◌, ◌-◌, ◌*◌, ◌/◌, ◌%◌, ◌≤◌, ◌<◌, Bool, true, false, ◌||◌, ◌==◌, ltb, [], ◌∷◌,
  ◌++◌, Option, none, some, ◌≡◌, arith, ap, if◌then◌else◌, Bytes, length, take, take-all,
  length-append, codes, Bool-cases, inl, inr,
}

-- The name of a socket: the text of its address and its port. Of a name of another family they are
-- what its bytes are, taken for an IPv6 address.
pub data SockName : Type 0 where
  inet_name inet6_name unix_name other_name : Bytes → ℕ → SockName

-- What a function leaves in `ip` and `port`, and whether it returns -1.
pub record Printed : Type 0 where
  pub ip : Bytes
  pub port : ℕ
  pub failed : Bool

-- inet_ntop writes a text that fits with its NUL, and else nothing.
abbrev ntop : Bytes → ℕ → Bytes → Bytes
ntop before ip_len text = if ltb (length text) ip_len then text else before

-- The label `error`.
abbrev unnamed : Bytes → ℕ → Printed
unnamed before zero = record { ip = before; port = 0; failed = true }
unnamed before (suc zero) = record { ip = []; port = 0; failed = true }
unnamed before (suc (suc n)) = record { ip = codes "?"; port = 0; failed = true }

-- With what `ip` held before, and its size.
unfoldable pub peer_to_string : Bytes → ℕ → Option SockName → Printed
peer_to_string before ip_len none = unnamed before ip_len
peer_to_string before zero (some name) = unnamed before zero
peer_to_string before (suc n) (some (inet_name text port)) = record {
  ip = ntop before (suc n) text;
  port = port;
  failed = false;
}
peer_to_string before (suc n) (some (inet6_name text port)) = record {
  ip = ntop before (suc n) text;
  port = port;
  failed = false;
}
peer_to_string before (suc n) (some (unix_name text port)) = record {
  ip = take (suc n) (codes "/unixsocket");
  port = 0;
  failed = false;
}
peer_to_string before (suc n) (some (other_name text port)) = unnamed before (suc n)

unfoldable pub sock_name : Bytes → ℕ → Option SockName → Printed
sock_name before ip_len none = record { ip = codes "?"; port = 0; failed = true }
sock_name before ip_len (some (inet_name text port)) = record {
  ip = ntop before ip_len text;
  port = port;
  failed = false;
}
sock_name before ip_len (some (inet6_name text port)) = record {
  ip = ntop before ip_len text;
  port = port;
  failed = false;
}
sock_name before ip_len (some (unix_name text port)) = record {
  ip = ntop before ip_len text;
  port = port;
  failed = false;
}
sock_name before ip_len (some (other_name text port)) = record {
  ip = ntop before ip_len text;
  port = port;
  failed = false;
}

-- `%d` of a number that is not negative; as much fuel as the number and one more is enough.
unfoldable pub digits : ℕ → ℕ → Bytes
digits zero n = []
digits (suc f) n =
    let rest = digits f (n / 10) in
    if ltb n 10 then (b'0' + n) ∷ [] else rest ++ (b'0' + n % 10) ∷ []

-- snprintf: the text, cut to the buffer, and the length that it has uncut.
abbrev snprintf : ℕ → Bytes → Bytes × ℕ
snprintf buf_len text = (take (buf_len - 1) text, length text)

abbrev has_colon : Bytes → Bool
has_colon [] = false
has_colon (c ∷ cs) = c == b':' || has_colon cs

abbrev address : Bytes → ℕ → Bytes
address ip port =
    let number = digits (suc port) port in
    if has_colon ip
    then codes "[" ++ (ip ++ (codes "]:" ++ number))
    else ip ++ (codes ":" ++ number)

unfoldable pub format_addr : ℕ → Bytes → ℕ → Bytes × ℕ
format_addr buf_len ip port = snprintf buf_len (address ip port)

abbrev inet6_addrstrlen : ℕ
inet6_addrstrlen = 46

-- With what the array `ip` held before.
unfoldable pub format_peer : Bytes → ℕ → Option SockName → Bytes × ℕ
unfolding peer_to_string format_addr
format_peer before buf_len name =
    let p = peer_to_string before inet6_addrstrlen name in format_addr buf_len p.ip p.port

unfoldable pub format_sock : Bytes → ℕ → Option SockName → Bytes × ℕ
unfolding sock_name format_addr
format_sock before buf_len name =
    let p = sock_name before inet6_addrstrlen name in format_addr buf_len p.ip p.port

-- 10 ^ (k + 1).
abbrev bound : ℕ → ℕ
bound zero = 10
bound (suc k) = 10 * bound k

length-digits : (f k n : ℕ) → n < bound k → length (digits f n) ≤ suc k
unfolding digits
length-digits zero k n h = omega arith
length-digits (suc f) zero n h =
    let small : ltb n 10 ≡ true = ground arith in rw small (omega arith)
length-digits (suc f) (suc k) n h = elim (Bool-cases (ltb n 10)) [
  | inl small ↦ rw small (omega arith)
  | inr large ↦
      let rest = length-digits f k (n / 10) (omega arith) in
      rw large (omega (arith, rest, length-append (digits f (n / 10)) ((b'0' + n % 10) ∷ [])))
]

-- The port is a 16-bit number, and the text of the address is no longer than one of IPv6.
abbrev pub IsName : Option SockName → Type 0
IsName none = Unit
IsName (some (inet_name text port)) = (length text ≤ 45) × (port < 65536)
IsName (some (inet6_name text port)) = (length text ≤ 45) × (port < 65536)
IsName (some (unix_name text port)) = (length text ≤ 45) × (port < 65536)
IsName (some (other_name text port)) = (length text ≤ 45) × (port < 65536)

address-short :
    (ip : Bytes) (port : ℕ) → length ip ≤ 45 → port < 65536 → length (address ip port) < 54
address-short ip port short small =
    let number = digits (suc port) port in
    let five = length-digits (suc port) 4 port (omega arith) in
    elim (Bool-cases (has_colon ip)) [
      | inl colon ↦ rw colon (omega (arith, five, length-append ip (codes "]:" ++ number)))
      | inr plain ↦ rw plain (omega (arith, five, length-append ip (codes ":" ++ number)))
    ]

-- A text that has room in the buffer, with its NUL, and is not cut.
abbrev pub IsUncut : ℕ → Bytes × ℕ → Type 0
IsUncut buf_len r = (length r.0 ≡ r.1) × (r.1 < buf_len)

format_addr-IsUncut :
    (buf_len : ℕ) (ip : Bytes) (port : ℕ)
    → 54 ≤ buf_len
    → length ip ≤ 45
    → port < 65536
    → IsUncut buf_len (format_addr buf_len ip port)
unfolding format_addr
format_addr-IsUncut buf_len ip port room short small =
    let fits = address-short ip port short small in
    (ap length (take-all (buf_len - 1) (address ip port) (omega arith)), omega arith)

-- An address that is no longer than one of IPv6, with a port of 16 bits.
abbrev IsShort : Printed → Type 0
IsShort p = (length p.ip ≤ 45) × (p.port < 65536)

ntop-short : (before text : Bytes) → length text ≤ 45 → length (ntop before 46 text) ≤ 45
ntop-short before text h = let fits : ltb (length text) 46 ≡ true = ground arith in rw fits h

peer_to_string-IsShort :
    (before : Bytes) (name : Option SockName)
    → IsName name
    → IsShort (peer_to_string before 46 name)
unfolding peer_to_string
peer_to_string-IsShort before none is = (omega arith, omega arith)
peer_to_string-IsShort before (some (inet_name text port)) (short, small) =
    (ntop-short before text short, small)
peer_to_string-IsShort before (some (inet6_name text port)) (short, small) =
    (ntop-short before text short, small)
peer_to_string-IsShort before (some (unix_name text port)) is = (omega arith, omega arith)
peer_to_string-IsShort before (some (other_name text port)) is = (omega arith, omega arith)

sock_name-IsShort :
    (before : Bytes) (name : Option SockName) → IsName name → IsShort (sock_name before 46 name)
unfolding sock_name
sock_name-IsShort before none is = (omega arith, omega arith)
sock_name-IsShort before (some (inet_name text port)) (short, small) =
    (ntop-short before text short, small)
sock_name-IsShort before (some (inet6_name text port)) (short, small) =
    (ntop-short before text short, small)
sock_name-IsShort before (some (unix_name text port)) (short, small) =
    (ntop-short before text short, small)
sock_name-IsShort before (some (other_name text port)) (short, small) =
    (ntop-short before text short, small)

-- A buffer of 54 bytes, and so the one of 64 that `init` of the server has, is enough for the text of
-- any name of a socket: neither `anetFormatPeer` nor `anetFormatSock` cuts it, whether or not the
-- name could be asked for, if the text that inet_ntop gives is no longer than that of an IPv6 address
-- and a port has 16 bits.
pub format-IsUncut :
    (before : Bytes) (buf_len : ℕ) (name : Option SockName)
    → 54 ≤ buf_len
    → IsName name
    → IsUncut buf_len (format_peer before buf_len name)
      × IsUncut buf_len (format_sock before buf_len name)
unfolding format_peer format_sock
format-IsUncut before buf_len name room is =
    let (peer_short, peer_small) = peer_to_string-IsShort before name is in
    let (sock_short, sock_small) = sock_name-IsShort before name is in
    (
      format_addr-IsUncut buf_len _ _ room peer_short peer_small,
      format_addr-IsUncut buf_len _ _ room sock_short sock_small,
    )
