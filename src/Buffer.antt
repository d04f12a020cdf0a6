-- ===== src/Buffer.antt =====
-- buffer.hpp, buffer.cpp and package.hpp: `buffer_t`, and the head of a package.
-- `buff` is the memory that `_buff` points to; the cells past its end belong to something else, so
-- touching them is the fault `out_of_bounds`. A failed `assert` is `assert_failed`.
pub mod Memory
pub mod Moves
pub mod Write
pub mod Grow
pub mod Overrun
pub mod Clean
mod Tests
use aspr1net.Base.{
  ℕ, zero, suc, ◌+◌, ◌-◌, ◌%◌, ◌^◌, Bool, ◌&&◌, List, [], ◌∷◌, ◌++◌, ◌≡◌, Result, ok, err,
  out_of_bounds, assert_failed, ◌>>=◌, ltb, leb, ◌==◌, if◌then◌else◌, Bytes, size_mod, le_bytes,
  length, take, drop,
}
use Memory.{mem_read, mem_write, strncpy, strlen, c_string}

-- `new char[n]` gives n cells, whose contents the source does not know.
pub record Allocator : Type 0 where
  pub fresh : ℕ → Bytes
  pub length-fresh : (n : ℕ) → length (fresh n) ≡ n

abbrev pub default_buff_size : ℕ
default_buff_size = 1024

-- `sizeof(package_head_t)`: the size_t `_length`.
abbrev pub head_size : ℕ
head_size = 8

-- `memcpy(_buff, &_head, sizeof(package_head_t))` puts these bytes.
abbrev pub head_bytes : ℕ → Bytes
head_bytes = le_bytes 8

pub record Buffer : Type 0 where
  pub buff : Bytes
  pub size : ℕ
  pub read_idx : ℕ
  pub write_idx : ℕ

-- The two asserts of `readable_size` and `writeable_size`.
abbrev pub asserted : Buffer → ℕ → Result ℕ
asserted b n =
    if leb b.write_idx b.size && leb b.read_idx b.write_idx then ok n else err assert_failed

unfoldable pub readable_size : Buffer → Result ℕ
readable_size b = asserted b (b.write_idx - b.read_idx)

unfoldable pub writeable_size : Buffer → Result ℕ
writeable_size b = asserted b (b.size - b.write_idx)

-- `memmove` of the readable bytes to the front.
unfoldable pub shrink : Buffer → Result Buffer
shrink b = do
  len ← readable_size b
  moved ← mem_read b.buff b.read_idx len
  buff ← mem_write b.buff 0 moved
  ok (record b { buff = buff; read_idx = 0; write_idx = len })

unfoldable pub ending : Buffer → Result Buffer
ending b = do
  room ← writeable_size b
  let ended = (do buff ← mem_write b.buff b.write_idx (0 ∷ []); ok (record b { buff = buff }))
  if room == 0 then ok b else ended

unfoldable pub reset : Buffer → Buffer
reset b = record b { read_idx = 0; write_idx = 0 }

-- `package_buff() - _buff`.
abbrev pub package_buff : ℕ
package_buff = head_size

-- `_size - sizeof(package_head_t) - 1` in size_t, and then as the value of an int that is not
-- negative: the low 32 bits.
unfoldable pub package_size : Buffer → ℕ
package_size b = (b.size + size_mod - head_size - 1) % size_mod % 2 ^ 32

-- The payload at `at_idx`, and the NUL behind it.
unfoldable pub end_package : Buffer → ℕ → Bytes → Result Buffer
end_package b at_idx payload = do
  filled ← mem_write b.buff at_idx payload
  let write_idx = b.write_idx + length payload
  ended ← mem_write filled write_idx (0 ∷ [])
  ok (record b { buff = ended; write_idx = write_idx })

module _ (alloc : Allocator) where
  unfoldable pub create : Buffer
  create = record {
    buff = alloc.fresh default_buff_size;
    size = default_buff_size;
    read_idx = 0;
    write_idx = 0;
  }

  -- The new block of `extend`: `strncpy(_buff, _old_buff, _size)`.
  abbrev pub grow : Buffer → ℕ → Result Buffer
  grow b new_size = do
    copied ← strncpy b.buff b.size
    buff ← mem_write (alloc.fresh new_size) 0 copied
    ok (record b { buff = buff; size = new_size })

  unfoldable pub extend : Buffer → ℕ → Result Buffer
  extend b ext_size = do
    room ← writeable_size b
    let grown = (do s ← shrink b; grow s ((s.size + ext_size) % size_mod))
    if ltb room ext_size then grown else ok b

  -- What the two `write` share up to the payload: `reset`, the head, and room for it and a NUL.
  unfoldable pub begin_package : Buffer → ℕ → Result Buffer
  begin_package b len = do
    let r = reset b
    headed ← mem_write r.buff 0 (head_bytes len)
    let h = record r { buff = headed; write_idx = r.write_idx + head_size }
    room ← writeable_size h
    let wanted = (len + 1) % size_mod
    if ltb room wanted then extend h ((wanted + size_mod - room) % size_mod) else ok h

  -- `write(const char*)`.
  unfoldable pub write_str : Buffer → Bytes → Result Buffer
  write_str b text = do
    ready ← begin_package b (strlen text)
    end_package ready ready.write_idx (c_string text)

  -- `write(size_t)`: the number stands at `package_buff()`.
  unfoldable pub write_int : Buffer → ℕ → Result Buffer
  write_int b n = do ready ← begin_package b 8; end_package ready package_buff (le_bytes 8 n)

-- Bytes `[0, _write_idx)` are what the sender puts on the wire, when `_read_idx` is 0.
abbrev pub contents : Buffer → Bytes
contents b = take (b.write_idx - b.read_idx) (drop b.read_idx b.buff)
