-- ===== src/Base/Text.antt =====
-- Texts of the source as bytes, and whether two are the same.
use Prim.Native.Char.{code}
use Prim.Native.String.{String}
use mathlib.Core.Path.{◌≡◌, refl}
use mathlib.Core.Bool.{Bool, true, false, ◌&&◌}
use mathlib.Core.List.{[], ◌∷◌}
use native.Mathlib.Omega.{arith}
use aspr1net.Base.Tests.{◌==◌}
use aspr1net.Base.Memory.{Bytes}

abbrev pub codes : String → Bytes
codes String.[] = []
codes (String.◌∷◌ c s) = code c ∷ codes s

abbrev pub eq_bytes : Bytes → Bytes → Bool
eq_bytes [] [] = true
eq_bytes [] (d ∷ ds) = false
eq_bytes (c ∷ cs) [] = false
eq_bytes (c ∷ cs) (d ∷ ds) = c == d && eq_bytes cs ds

pub eq_bytes-eq : (a b : Bytes) → eq_bytes a b ≡ true → a ≡ b
eq_bytes-eq [] [] h = refl
eq_bytes-eq [] (d ∷ ds) h = cc
eq_bytes-eq (c ∷ cs) [] h = cc
eq_bytes-eq (c ∷ cs) (d ∷ ds) h = ground (arith, eq_bytes-eq cs ds)

pub eq_bytes_self : (a : Bytes) → eq_bytes a a ≡ true
eq_bytes_self [] = refl
eq_bytes_self (c ∷ cs) = ground (arith, eq_bytes_self cs)
