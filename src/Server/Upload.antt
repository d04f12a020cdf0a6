-- ===== src/Server/Upload.antt =====
-- `file_send_command`: the file is the payloads of the packages that come.
use aspr1net.Base.{
  ℕ, suc, ◌-◌, ◌<◌, List, [], ◌∷◌, ◌++◌, some, ◌≡◌, refl, sym, ap, ◌∙◌, arith, ok, Bytes, length,
  le_bytes, size_mod, append_assoc, append-nil,
}
use aspr1net.Base.Int.{pos}
use aspr1net.Arg.{argv}
use aspr1net.Anet.{Os}
use aspr1net.Buffer.{Allocator, readable_size}
use aspr1net.Buffer.Memory.{mem_read}
use aspr1net.Buffer.Moves.{readable_size-ok, mem_read-contents}
use aspr1net.Stdio.{Files, FileLaws}
use aspr1net.Wire.{packed, packages, concat, recv_integer}
use aspr1net.Wire.Exact.{Stands, recv_integer-packed}
use aspr1net.Chunks.Pieces.{AreChunks}
use aspr1net.Server.{Session, recv, recv_chunks, file_send, file_name}
use aspr1net.Server.Receiving.{ReadsWhole, HasBlock, IsKept, recv-packed}

module _ {W F : Type 0} (alloc : Allocator) (os : Os W) (fs : Files F) where
  recv_chunks_empty :
      (n h : ℕ) (s s1 : Session) (w w1 : W) (f : F)
      → recv alloc os s w ≡ ok (w1, s1, pos 0)
      → recv_chunks alloc os fs (suc n) h s w f ≡ ok (w1, s1, f)
  unfolding recv_chunks
  recv_chunks_empty n h s s1 w w1 f got = ground (arith, got)

  recv_chunks_next :
      (n h m k : ℕ) (bs : Bytes) (s s1 : Session) (w w1 : W) (f : F)
      → recv alloc os s w ≡ ok (w1, s1, pos m)
      → 0 < m
      → readable_size s1.r_buffer ≡ ok k
      → mem_read s1.r_buffer.buff 0 k ≡ ok bs
      → recv_chunks alloc os fs (suc n) h s w f
        ≡ recv_chunks alloc os fs n h s1 w1 (fs.fwrite h bs f)
  unfolding recv_chunks
  recv_chunks_next n h m k bs s s1 w w1 f got more size read = ground (arith, got, size, read)

  file_send_steps :
      (s s2 : Session) (name : Bytes) (w w1 w2 : W) (f f1 f2 : F) (h num : ℕ)
      → argv s.arg 1 ≡ some name
      → fs.fopen_write (file_name name) f ≡ (f1, some h)
      → recv_integer os (alloc.fresh 8) s.fd w ≡ ok (w1, num)
      → recv_chunks alloc os fs num h s w1 f1 ≡ ok (w2, s2, f2)
      → file_send alloc os fs s w f ≡ ok (w2, s2, fs.fclose h f2)
  unfolding file_send
  file_send_steps s s2 name w w1 w2 f f1 f2 h num named opened number loops =
      ground (arith, named, opened, number, loops)

module _ {W F : Type 0} (alloc : Allocator) (os : Os W) (fd : ℕ) (reads : ReadsWhole os fd)
    (fs : Files F) (laws : FileLaws fs) where
  one_chunk :
      (n h : ℕ) (s : Session) (p rest : Bytes) (w : W) (f : F)
      → s.fd ≡ pos fd
      → HasBlock s
      → length p < s.r_buffer.size
      → 0 < length p
      → os.pending w fd ≡ packed p ++ rest
      → (w1 : W) × (s1 : Session) × (recv_chunks alloc os fs (suc n) h s w f
          ≡ recv_chunks alloc os fs n h s1 w1 (fs.fwrite h p f))
        × (os.pending w1 fd ≡ rest)
        × IsKept s s1
  one_chunk n h s p rest w f at_fd block fits more there =
      let (w1, s1, got, text, left, kept) =
        recv-packed alloc os fd reads s p rest w at_fd block fits there in
      (
        w1,
        s1,
        recv_chunks_next alloc os fs n h (length p) (s1.r_buffer.write_idx - s1.r_buffer.read_idx) p
            s s1 w w1 f got more (readable_size-ok s1.r_buffer kept.valid)
            (mem_read-contents s1.r_buffer kept.valid kept.from_start ∙ ap (λ x. ok x) text),
        left,
        kept,
      )

  kept-HasBlock : (s s1 : Session) → HasBlock s → IsKept s s1 → HasBlock s1
  kept-HasBlock s s1 (sized, small) kept =
      (omega (arith, kept.valid.sized), omega (arith, kept.same_size))

  -- The last package, which may be empty.
  last_written :
      (h : ℕ) (s : Session) (p rest : Bytes) (w : W) (f : F)
      → s.fd ≡ pos fd
      → HasBlock s
      → length p < s.r_buffer.size
      → os.pending w fd ≡ packed p ++ rest
      → (w' : W) × (s' : Session) × (f' : F) × (recv_chunks alloc os fs 1 h s w f ≡ ok (w', s', f'))
        × (fs.written f' h ≡ fs.written f h ++ p)
        × (os.pending w' fd ≡ rest)
  unfolding recv_chunks
  last_written h s [] rest w f at_fd block fits there =
      let (w1, s1, got, text, left, kept) =
        recv-packed alloc os fd reads s [] rest w at_fd block fits there in
      (
        w1,
        s1,
        f,
        recv_chunks_empty alloc os fs 0 h s s1 w w1 f got,
        sym (append-nil (fs.written f h)),
        left,
      )
  last_written h s (x ∷ p) rest w f at_fd block fits there =
      let (w1, s1, next, left, kept) =
        one_chunk 0 h s (x ∷ p) rest w f at_fd block fits (omega arith) there in
      (w1, s1, fs.fwrite h (x ∷ p) f, next, laws.fwrite_adds h (x ∷ p) f, left)

  -- The loop writes the payloads to the file, and leaves the stream behind the last.
  recv_chunks-written :
      (ps : List Bytes) (h size : ℕ) (s : Session) (rest : Bytes) (w : W) (f : F)
      → s.fd ≡ pos fd
      → HasBlock s
      → size < s.r_buffer.size
      → AreChunks size ps
      → os.pending w fd ≡ packages ps ++ rest
      → (w' : W) × (s' : Session) × (f' : F) × (recv_chunks alloc os fs (length ps) h s w f
          ≡ ok (w', s', f'))
        × (fs.written f' h ≡ fs.written f h ++ concat ps)
        × (os.pending w' fd ≡ rest)
  unfolding recv_chunks
  recv_chunks-written [] h size s rest w f at_fd block large sizes there =
      (w, s, f, refl, sym (append-nil (fs.written f h)), there)
  recv_chunks-written (p ∷ []) h size s rest w f at_fd block large sizes there =
      let (w1, s1, f1, done, text, left) =
        last_written h s p rest w f at_fd block (omega arith)
          (there ∙ ap (λ x. x ++ rest) (append-nil (packed p))) in
      (w1, s1, f1, done, text ∙ ap (λ x. fs.written f h ++ x) (sym (append-nil p)), left)
  recv_chunks-written (p ∷ q ∷ ps) h size s rest w f at_fd block large (fits, more, sizes) there =
      let (w1, s1, next, left, kept) =
        one_chunk (suc (length ps)) h s p (packages (q ∷ ps) ++ rest) w f at_fd block (omega arith)
          more (there ∙ append_assoc (packed p) (packages (q ∷ ps)) rest) in
      let (w2, s2, f2, done, text, end) =
        recv_chunks-written (q ∷ ps) h size s1 rest w1 (fs.fwrite h p f) (kept.same_fd ∙ at_fd)
          (kept-HasBlock s s1 block kept) (omega (arith, kept.same_size)) sizes left in
      (
        w2,
        s2,
        f2,
        next ∙ done,
        text
            ∙ ap (λ x. x ++ concat (q ∷ ps)) (laws.fwrite_adds h p f)
            ∙ append_assoc (fs.written f h) p (concat (q ∷ ps)),
        end,
      )

  -- `file_send_command` where each read gets all that it asks for: the file that it opens is given
  -- the payloads of the packages behind their number, and the stream goes on behind them.
  pub file_send-written :
      (stands : Stands os fd) (ps : List Bytes) (h size : ℕ) (name rest : Bytes) (s : Session)
      (w : W) (f f1 : F)
      → s.fd ≡ pos fd
      → HasBlock s
      → size < s.r_buffer.size
      → AreChunks size ps
      → length ps < size_mod
      → argv s.arg 1 ≡ some name
      → fs.fopen_write (file_name name) f ≡ (f1, some h)
      → os.pending w fd ≡ (packed (le_bytes 8 (length ps)) ++ packages ps) ++ rest
      → (w' : W) × (s' : Session) × (f' : F) × (file_send alloc os fs s w f
          ≡ ok (w', s', fs.fclose h f'))
        × (fs.written f' h ≡ concat ps)
        × (os.pending w' fd ≡ rest)
  file_send-written stands ps h size name rest s w f f1 at_fd block large sizes count named opened
        there =
      let (w1, number, left) =
        recv_integer-packed os fd stands (length ps) (packages ps ++ rest) (alloc.fresh 8) w count
          (alloc.length-fresh 8)
          (there ∙ append_assoc (packed (le_bytes 8 (length ps))) (packages ps) rest) in
      let (w2, s2, f2, loops, written, end) =
        recv_chunks-written ps h size s rest w1 f1 at_fd block large sizes left in
      (
        w2,
        s2,
        f2,
        file_send_steps alloc os fs s s2 name w w1 w2 f f1 f2 h (length ps) named opened
            (ap (λ d. recv_integer os (alloc.fresh 8) d w) at_fd ∙ number) loops,
        written ∙ ap (λ x. x ++ concat ps) (laws.fopen_write_start (file_name name) f opened),
        end,
      )
