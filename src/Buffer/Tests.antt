-- ===== src/Buffer/Tests.antt =====
-- Runs of `buffer_t`, and the theorems at concrete inputs.
use aspr1net.Base.{
  ◌+◌, ◌≤◌, ◌-◌, [], ◌∷◌, ◌≡◌, refl, arith, ok, err, out_of_bounds, Bytes, take, replicate,
  length-replicate, of_le_bytes,
}
use aspr1net.Buffer.Memory.{c_string, strlen, pad_string}
use aspr1net.Buffer.Moves.{IsValid, create-IsValid}
use aspr1net.Buffer.Write.{Holds, write_str_fits}
use aspr1net.Buffer.Grow.{extend_lem}
use aspr1net.Buffer.Overrun.{write_str_overruns, write_str_long, head_lost}
use aspr1net.Buffer.{Allocator, Buffer, create, contents, head_bytes, extend, write_str}

-- Fresh memory that happens to hold sevens.
abbrev sevens : Allocator
sevens = record { fresh = λ n. replicate n 7; length-fresh = λ n. length-replicate n 7 }

abbrev pong : Bytes
pong = b'p' ∷ b'o' ∷ b'n' ∷ b'g' ∷ b'.' ∷ []

-- A block of twelve bytes: after two bytes were read, `c` and `d` are left to read.
abbrev twelve : Buffer
twelve = record {
  buff = b'a' ∷ b'b' ∷ b'c' ∷ b'd' ∷ replicate 8 7;
  size = 12;
  read_idx = 2;
  write_idx = 4;
}

twelve-IsValid : IsValid twelve
twelve-IsValid = omega arith

extend_lem_example :
    (e : Buffer) × (extend sevens twelve 9 ≡ ok e)
    × IsValid e
    × (9 ≤ e.size - e.write_idx)
    × (contents e ≡ contents twelve)
unfolding c_string
extend_lem_example = extend_lem sevens twelve 9 twelve-IsValid (omega arith) refl

write_str_fits_example :
    (end : Buffer) × (write_str sevens (create sevens) pong ≡ ok end)
    × Holds (head_bytes (strlen pong)) (c_string pong) end
    × (end.size ≡ (create sevens).size)
unfolding create c_string
write_str_fits_example =
    write_str_fits sevens (create sevens) pong (create-IsValid sevens) (omega arith)

-- Four characters and a NUL do not fit into the four bytes behind the head, and one byte lacks.
write_str_overruns_example : write_str sevens twelve (take 4 pong) ≡ err out_of_bounds
unfolding c_string
write_str_overruns_example =
    write_str_overruns sevens twelve (take 4 pong) twelve-IsValid (omega arith) (omega arith)
      (omega arith) (omega arith)

abbrev tens : Bytes
tens = replicate 10 b't'

write_str_long_example :
    (end : Buffer) × (write_str sevens twelve tens ≡ ok end)
    × Holds (pad_string 8 (head_bytes (strlen tens))) (c_string tens) end
    × (end.size ≡ strlen tens + 9)
unfolding c_string
write_str_long_example =
    write_str_long sevens twelve tens twelve-IsValid (omega arith) (omega arith) (omega arith)

abbrev many : Bytes
many = replicate 256 b'm'

head_lost_example :
    (end : Buffer) × (write_str sevens twelve many ≡ ok end)
    × (of_le_bytes (take 8 (contents end)) ≡ 0)
unfolding c_string
head_lost_example =
    head_lost sevens twelve many twelve-IsValid (omega arith) (omega arith) (omega arith) refl
