-- ===== src/Console/Tests.antt =====
-- Two lines of input.
use aspr1net.Base.{
  ◌-◌, ◌≡◌, ◌∷◌, ◌++◌, ◌⊎◌, arith, ok, Bytes, codes, ◌<◌, length, replicate, length-replicate, ℕ,
}
use aspr1net.Console.{Line, fgetline}
use aspr1net.Console.Bounds.{Ends, Reads, fgetline_lem}

abbrev two_lines : Bytes
two_lines = codes "ping" ++ 10 ∷ codes "get"

abbrev block : Bytes
block = replicate 128 0

fgetline_lem_example :
    (r : Line) × (fgetline block 128 two_lines ≡ ok r)
    × (Ends block two_lines r ⊎ ((0 < length two_lines) × Reads (128 - 1) 0 block two_lines r))
fgetline_lem_example =
    fgetline_lem block two_lines 128 (omega arith) (omega (arith, length-replicate {A = ℕ} 128 0))
