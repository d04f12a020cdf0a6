-- ===== src/Wire.antt =====
-- Packages on a stream: what client.cpp and server.cpp make of `anetRead`, `read` and `anetWrite` on
-- a descriptor that may be -1.
pub mod Exact
pub mod Clean
use aspr1net.Base.{
  ℕ, ◌+◌, ◌-◌, ◌%◌, ◌^◌, Bool, List, [], ◌∷◌, ◌++◌, Option, none, some, ◌≡◌, Result, ok, err,
  out_of_bounds, ◌>>=◌, ◌==◌, ltb, if◌then◌else◌, Bytes, size_mod, of_le_bytes, length, take, drop,
}
use aspr1net.Base.Int.{ℤ, pos, negsuc}
use aspr1net.Anet.{Os}
use aspr1net.Anet.Transfer.{read_all}
use aspr1net.Anet.Write.{write_all}
use aspr1net.Buffer.{head_size, head_bytes}

-- `package_t`: the head with the length, and the payload.
abbrev pub packed : Bytes → Bytes
packed payload = head_bytes (length payload) ++ payload

abbrev pub concat : List Bytes → Bytes
concat [] = []
concat (p ∷ ps) = p ++ concat ps

-- The packages of payloads, one behind the other.
abbrev pub packages : List Bytes → Bytes
packages [] = []
packages (p ∷ ps) = packed p ++ packages ps

-- A variable of the size of a head that was given some bytes, in front of what it held before.
abbrev pub stored : Bytes → Bytes → Bytes
stored before got = got ++ drop (length got) before

-- A number of bytes, or -1, as a size_t.
abbrev pub size_of : Option ℕ → ℕ
size_of none = size_mod - 1
size_of (some n) = n

abbrev pub length_of : Option Bytes → Option ℕ
length_of none = none
length_of (some bs) = some (length bs)

-- What is there of an answer of read.
abbrev pub bytes_of : Option Bytes → Bytes
bytes_of none = []
bytes_of (some bs) = bs

module _ {W : Type 0} (os : Os W) where
  -- `anetRead(fd, p, n)` with a size_t n, which becomes an int. One that is negative asks read for
  -- more bytes than any block holds.
  unfoldable pub read_fd : ℤ → ℕ → W → Result (W × Option Bytes)
  read_fd (pos fd) n w =
      let count = n % 2 ^ 32 in
      if ltb count (2 ^ 31) then read_all os fd count w else err out_of_bounds
  read_fd (negsuc m) n w = ok (w, if n % 2 ^ 32 == 0 then some [] else none)

  -- `read(fd, p, n)`.
  unfoldable pub read_once : ℤ → ℕ → W → W × Option Bytes
  read_once (pos fd) n w = os.read fd n w
  read_once (negsuc m) n w = (w, none)

  -- `anetWrite(fd, p, n)` with the n bytes at p, where n becomes an int. One that is negative asks
  -- write for bytes past any block.
  unfoldable pub write_fd : ℤ → Bytes → W → Result (W × Option ℕ)
  write_fd (pos fd) bs w =
      let count = length bs % 2 ^ 32 in
      if ltb count (2 ^ 31) then write_all os fd (take count bs) w else err out_of_bounds
  write_fd (negsuc m) bs w = ok (w, if length bs % 2 ^ 32 == 0 then some 0 else none)

  -- `recv_integer`: a head, and up to eight bytes into a size_t that was 0.
  unfoldable pub recv_integer : Bytes → ℤ → W → Result (W × ℕ)
  unfolding read_fd
  recv_integer garbage fd w = do
    (w1, got) ← read_fd fd head_size w
    let len = of_le_bytes (stored garbage (bytes_of got))
    (w2, number) ← read_fd fd len w1
    let cell = stored (head_bytes 0) (bytes_of number)
    if ltb head_size (length (bytes_of number))
        then err out_of_bounds
        else ok (w2, of_le_bytes cell)
