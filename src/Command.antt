-- ===== src/Command.antt =====
-- The command tables of client.cpp and server.cpp: the lookup of a name, and the test of the number
-- of arguments that both have.
use aspr1net.Base.{
  Result, ok, err, out_of_bounds, out_of_fuel, ℕ, Bool, not, List, [], ◌∷◌, Option, none, some,
  Bytes, eq_bytes, if◌then◌else◌,
}
use aspr1net.Base.Int.{ℤ, pos, ltb_ℤ, eqb_ℤ}

-- `find` in an `std::unordered_map`.
unfoldable pub find {ℓ} : {A : Type ℓ} → Bytes → List (Bytes × A) → Option A
find name [] = none
find name ((key, value) ∷ entries) = if eq_bytes key name then some value else find name entries

-- `_arity > 0` asks for just so many arguments, any other for no fewer.
unfoldable pub arity_fits : ℤ → ℕ → Bool
arity_fits arity argc =
    if ltb_ℤ (pos 0) arity then eqb_ℤ (pos argc) arity else not (ltb_ℤ (pos argc) arity)

-- An element of a vector.
abbrev pub element {ℓ} : {A : Type ℓ} → Option A → Result A
element none = err out_of_bounds
element (some a) = ok a

-- The splitter of C strings always has enough fuel.
abbrev pub split {ℓ} : {A : Type ℓ} → Option A → Result A
split none = err out_of_fuel
split (some a) = ok a
