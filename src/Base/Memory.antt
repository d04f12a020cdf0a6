-- ===== src/Base/Memory.antt =====
-- Bytes in memory, and a size_t as its eight little-endian bytes.
use Prim.Native.Nat.{ℕ, zero, suc, ◌+◌, ◌*◌, ◌/◌, ◌%◌, ◌^◌, ◌<◌}
use mathlib.Core.Path.{◌≡◌, refl, ap}
use mathlib.Core.List.{List, [], ◌∷◌}
use native.Mathlib.Omega.{arith}
use aspr1net.Base.Lists.{length}

abbrev pub Bytes : Type 0
Bytes = List ℕ

-- 2 ^ 64, the modulus of size_t.
abbrev pub size_mod : ℕ
size_mod = 2 ^ 64

-- The k lowest bytes of a number, lowest first.
unfoldable pub le_bytes : ℕ → ℕ → Bytes
le_bytes zero n = []
le_bytes (suc k) n = (n % 256) ∷ le_bytes k (n / 256)

unfoldable pub of_le_bytes : Bytes → ℕ
of_le_bytes [] = 0
of_le_bytes (b ∷ bs) = b + 256 * of_le_bytes bs

pub length-le_bytes : (k n : ℕ) → length (le_bytes k n) ≡ k
unfolding le_bytes
length-le_bytes zero n = refl
length-le_bytes (suc k) n = ap suc (length-le_bytes k (n / 256))

-- The numbers below 256 ^ k, by recursion on k.
abbrev Fits : ℕ → ℕ → Type 0
Fits zero n = n ≡ 0
Fits (suc k) n = Fits k (n / 256)

of_le_bytes-le_bytes_fit : (k n : ℕ) → Fits k n → of_le_bytes (le_bytes k n) ≡ n
unfolding le_bytes of_le_bytes
of_le_bytes-le_bytes_fit zero n h = omega arith
of_le_bytes-le_bytes_fit (suc k) n h = omega (arith, of_le_bytes-le_bytes_fit k (n / 256) h)

-- A size_t is read back from its eight bytes.
pub of_le_bytes-le_bytes : (n : ℕ) → n < size_mod → of_le_bytes (le_bytes 8 n) ≡ n
of_le_bytes-le_bytes n h = of_le_bytes-le_bytes_fit 8 n (omega arith)
