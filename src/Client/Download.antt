-- ===== src/Client/Download.antt =====
-- The loop of `file_recv`: the payloads of the packages that come, one behind the other.
use aspr1net.Base.{
  ℕ, suc, ◌-◌, ◌≤◌, ◌<◌, List, [], ◌∷◌, ◌++◌, ◌≡◌, refl, sym, ap, ◌∙◌, arith, ok, Bytes, length,
  append_assoc, append-nil, subst,
}
use aspr1net.Base.Int.{pos}
use aspr1net.Anet.{Os}
use aspr1net.Buffer.{Allocator, readable_size}
use aspr1net.Buffer.Memory.{mem_read}
use aspr1net.Buffer.Moves.{readable_size-ok, mem_read-contents}
use aspr1net.Stdio.{Files, FileLaws}
use aspr1net.Wire.{packed, packages, concat}
use aspr1net.Wire.Exact.{Stands}
use aspr1net.Client.{Client, recv, recv_chunks}
use aspr1net.Client.Recv.{HasBlock, IsKept, recv-packed}
use aspr1net.Chunks.Pieces.{AreChunks}

module _ {W F : Type 0} (alloc : Allocator) (os : Os W) (fs : Files F) where
  -- An empty package ends the loop.
  recv_chunks_empty :
      (n h : ℕ) (c c1 : Client) (w w1 : W) (f : F)
      → recv alloc os c w ≡ ok (w1, c1, pos 0)
      → recv_chunks alloc os fs (suc n) h c w f ≡ ok (w1, c1, f)
  unfolding recv_chunks
  recv_chunks_empty n h c c1 w w1 f got = ground (arith, got)

  recv_chunks_next :
      (n h m k : ℕ) (bs : Bytes) (c c1 : Client) (w w1 : W) (f : F)
      → recv alloc os c w ≡ ok (w1, c1, pos m)
      → 0 < m
      → readable_size c1.r_buffer ≡ ok k
      → mem_read c1.r_buffer.buff 0 k ≡ ok bs
      → recv_chunks alloc os fs (suc n) h c w f
        ≡ recv_chunks alloc os fs n h c1 w1 (fs.fwrite h bs f)
  unfolding recv_chunks
  recv_chunks_next n h m k bs c c1 w w1 f got more size read = ground (arith, got, size, read)

module _ {W F : Type 0} (alloc : Allocator) (os : Os W) (fd : ℕ) (stands : Stands os fd)
    (fs : Files F) (laws : FileLaws fs) where
  -- A package that is not empty goes to the file.
  one_chunk :
      (n h : ℕ) (c : Client) (p rest : Bytes) (w : W) (f : F)
      → c.fd ≡ pos fd
      → HasBlock c
      → length p ≤ c.r_buffer.size
      → 0 < length p
      → os.pending w fd ≡ packed p ++ rest
      → (w1 : W) × (c1 : Client) × (recv_chunks alloc os fs (suc n) h c w f
          ≡ recv_chunks alloc os fs n h c1 w1 (fs.fwrite h p f))
        × (os.pending w1 fd ≡ rest)
        × IsKept c c1
  one_chunk n h c p rest w f at_fd block fits more there =
      let (w1, c1, got, text, left, kept) =
        recv-packed alloc os fd stands c p rest w at_fd block fits there in
      (
        w1,
        c1,
        recv_chunks_next alloc os fs n h (length p) (c1.r_buffer.write_idx - c1.r_buffer.read_idx) p
            c c1 w w1 f got more (readable_size-ok c1.r_buffer kept.valid)
            (mem_read-contents c1.r_buffer kept.valid kept.from_start ∙ ap (λ x. ok x) text),
        left,
        kept,
      )

  kept-HasBlock : (c c1 : Client) → HasBlock c → IsKept c c1 → HasBlock c1
  kept-HasBlock c c1 (sized, small) kept =
      (omega (arith, kept.valid.sized), omega (arith, kept.same_size))

  -- The last package, which may be empty.
  last_written :
      (h : ℕ) (c : Client) (p rest : Bytes) (w : W) (f : F)
      → c.fd ≡ pos fd
      → HasBlock c
      → length p ≤ c.r_buffer.size
      → os.pending w fd ≡ packed p ++ rest
      → (w' : W) × (c' : Client) × (f' : F) × (recv_chunks alloc os fs 1 h c w f ≡ ok (w', c', f'))
        × (fs.written f' h ≡ fs.written f h ++ p)
        × (os.pending w' fd ≡ rest)
  unfolding recv_chunks
  last_written h c [] rest w f at_fd block fits there =
      let (w1, c1, got, text, left, kept) =
        recv-packed alloc os fd stands c [] rest w at_fd block fits there in
      (
        w1,
        c1,
        f,
        recv_chunks_empty alloc os fs 0 h c c1 w w1 f got,
        sym (append-nil (fs.written f h)),
        left,
      )
  last_written h c (x ∷ p) rest w f at_fd block fits there =
      let (w1, c1, next, left, kept) =
        one_chunk 0 h c (x ∷ p) rest w f at_fd block fits (omega arith) there in
      (w1, c1, fs.fwrite h (x ∷ p) f, next, laws.fwrite_adds h (x ∷ p) f, left)

  -- On a connection that stands, the loop writes the payloads of the packages to the file, and leaves
  -- the stream behind the last. The payloads have to fit into the block, and none but the last may be
  -- empty.
  pub recv_chunks-written :
      (ps : List Bytes) (h : ℕ) (c : Client) (rest : Bytes) (w : W) (f : F)
      → c.fd ≡ pos fd
      → HasBlock c
      → AreChunks c.r_buffer.size ps
      → os.pending w fd ≡ packages ps ++ rest
      → (w' : W) × (c' : Client) × (f' : F) × (recv_chunks alloc os fs (length ps) h c w f
          ≡ ok (w', c', f'))
        × (fs.written f' h ≡ fs.written f h ++ concat ps)
        × (os.pending w' fd ≡ rest)
  unfolding recv_chunks
  recv_chunks-written [] h c rest w f at_fd block sizes there =
      (w, c, f, refl, sym (append-nil (fs.written f h)), there)
  recv_chunks-written (p ∷ []) h c rest w f at_fd block sizes there =
      let (w1, c1, f1, done, text, left) =
        last_written h c p rest w f at_fd block sizes
          (there ∙ ap (λ x. x ++ rest) (append-nil (packed p))) in
      (w1, c1, f1, done, text ∙ ap (λ x. fs.written f h ++ x) (sym (append-nil p)), left)
  recv_chunks-written (p ∷ q ∷ ps) h c rest w f at_fd block (fits, more, sizes) there =
      let (w1, c1, next, left, kept) =
        one_chunk (suc (length ps)) h c p (packages (q ∷ ps) ++ rest) w f at_fd block fits more
          (there ∙ append_assoc (packed p) (packages (q ∷ ps)) rest) in
      let (w2, c2, f2, done, text, end) =
        recv_chunks-written (q ∷ ps) h c1 rest w1 (fs.fwrite h p f) (kept.same_fd ∙ at_fd)
          (kept-HasBlock c c1 block kept)
          (subst (λ n. AreChunks n (q ∷ ps)) (sym kept.same_size) sizes) left in
      (
        w2,
        c2,
        f2,
        next ∙ done,
        text
            ∙ ap (λ x. x ++ concat (q ∷ ps)) (laws.fwrite_adds h p f)
            ∙ append_assoc (fs.written f h) p (concat (q ∷ ps)),
        end,
      )
