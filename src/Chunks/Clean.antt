-- ===== src/Chunks/Clean.antt =====
-- The loop over a file, and the flush, go through no pointer to what was deleted.
use aspr1net.Base.{
  ℕ, zero, suc, List, [], ◌∷◌, ◌++◌, Bytes, Clean, bind-Sure, if-Sure, fails, gives,
}
use aspr1net.Base.Int.{ℤ}
use aspr1net.Anet.{Os}
use aspr1net.Buffer.{Allocator, Buffer}
use aspr1net.Buffer.Clean.{mem_read-Clean, mem_write-Clean, readable_size-Clean}
use aspr1net.Stdio.{Files}
use aspr1net.Wire.Clean.{write_fd-Clean}
use aspr1net.Chunks.{chunk, file_chunks, flush, flush_all}

chunk-Clean : (alloc : Allocator) (bs : Bytes) → Clean (chunk alloc bs)
unfolding chunk
chunk-Clean alloc bs = bind-Sure (mem_write-Clean _ _ _) (λ filled h.
    bind-Sure (mem_write-Clean _ _ _)
      (λ headed h. bind-Sure (mem_write-Clean _ _ _) (λ ended h. gives tt)))

pub file_chunks-Clean :
    {F : Type 0} (alloc : Allocator) (fs : Files F) (fuel h : ℕ) (f : F) (chunks : List Buffer)
    → Clean (file_chunks alloc fs fuel h f chunks)
unfolding file_chunks
file_chunks-Clean alloc fs zero h f chunks = fails tt
file_chunks-Clean alloc fs (suc n) h f chunks =
    if-Sure _ (gives tt)
      (bind-Sure (chunk-Clean alloc _) (λ c k. file_chunks-Clean alloc fs n h _ (chunks ++ c ∷ [])))

module _ {W : Type 0} (os : Os W) where
  pub flush-Clean : (fd : ℤ) (b : Buffer) (w : W) → Clean (flush os fd b w)
  unfolding flush
  flush-Clean fd b w =
      bind-Sure (readable_size-Clean b)
        (λ n h. bind-Sure (mem_read-Clean b.buff 0 n) (λ bs h. write_fd-Clean os fd bs w))

  pub flush_all-Clean : (fd : ℤ) (bs : List Buffer) (w : W) → Clean (flush_all os fd bs w)
  unfolding flush_all
  flush_all-Clean fd [] w = gives tt
  flush_all-Clean fd (b ∷ bs) w =
      bind-Sure (flush-Clean fd b w)
        (λ r h. bind-Sure (flush_all-Clean fd bs r.0) (λ r h. gives tt))
