-- ===== src/Chunks.antt =====
-- A file in packages: the loop over fread that client.cpp and server.cpp share word for word, and the
-- flush of buffers to a descriptor.
pub mod Pieces
pub mod Read
pub mod Flush
pub mod Whole
pub mod Clean
use aspr1net.Base.{
  ℕ, zero, suc, ◌+◌, List, [], ◌∷◌, ◌++◌, Option, ◌≡◌, Result, ok, err, out_of_fuel, ◌>>=◌,
  if◌then◌else◌, Bytes, length,
}
use aspr1net.Base.Int.{ℤ}
use aspr1net.Anet.{Os}
use aspr1net.Buffer.{
  Allocator, Buffer, head_size, head_bytes, package_buff, package_size, create, readable_size,
}
use aspr1net.Buffer.Memory.{mem_read, mem_write}
use aspr1net.Stdio.{Files}
use aspr1net.Wire.{write_fd}

-- A new buffer with what fread put behind the head, the head, and a NUL.
unfoldable pub chunk : Allocator → Bytes → Result Buffer
unfolding create
chunk alloc bs = do
  let b = create alloc
  filled ← mem_write b.buff package_buff bs
  headed ← mem_write filled 0 (head_bytes (length bs))
  let write_idx = length bs + head_size
  ended ← mem_write headed write_idx (0 ∷ [])
  ok (record b { buff = ended; write_idx = write_idx })

module _ {F : Type 0} (alloc : Allocator) (fs : Files F) where
  -- `while (!feof(_input_file))`, on fuel.
  unfoldable pub file_chunks : ℕ → ℕ → F → List Buffer → Result (F × List Buffer)
  unfolding create package_size
  file_chunks zero h f chunks = err out_of_fuel
  file_chunks (suc n) h f chunks =
      let (f', bs) = fs.fread h (package_size (create alloc)) f in
      let more = (do c ← chunk alloc bs; file_chunks n h f' (chunks ++ c ∷ [])) in
      if fs.feof h f then ok (f, chunks) else more

module _ {W : Type 0} (os : Os W) where
  -- `anetWrite(_fd, _b->_buff, _b->readable_size())`, which begins at the start of the block.
  unfoldable pub flush : ℤ → Buffer → W → Result (W × Option ℕ)
  flush fd b w = do n ← readable_size b; bs ← mem_read b.buff 0 n; write_fd os fd bs w

  -- The loop over `_buffer_list`.
  unfoldable pub flush_all : ℤ → List Buffer → W → Result (W × List (Option ℕ))
  unfolding flush
  flush_all fd [] w = ok (w, [])
  flush_all fd (b ∷ bs) w = do
    (w1, n) ← flush fd b w
    (w2, ns) ← flush_all fd bs w1
    ok (w2, n ∷ ns)
