-- ===== src/Chunks/Whole.antt =====
-- A whole file: the loop over it, from its start, and what it becomes on the wire.
use aspr1net.Base.{
  ℕ, suc, ◌+◌, List, [], ◌∷◌, ◌++◌, some, ◌≡◌, refl, ap, ◌∙◌, arith, ok, Bytes, length, le_bytes,
}
use aspr1net.Buffer.{Allocator, Buffer}
use aspr1net.Stdio.{Files, FileLaws}
use aspr1net.Wire.{packed, packages}
use aspr1net.Chunks.{file_chunks}
use aspr1net.Chunks.Pieces.{pieces, rounds_of, rounds_bound}
use aspr1net.Chunks.Read.{AllHold, file_chunks_lem}

-- The payloads of a file.
abbrev pub pieces_of : Bytes → List Bytes
pieces_of text = pieces (rounds_of text) text

-- The number of packages, packed, and the packages.
abbrev pub file_stream : Bytes → Bytes
file_stream text = packed (le_bytes 8 (length (pieces_of text))) ++ packages (pieces_of text)

-- Buffers of so many payloads.
pub length-AllHold : (bs : List Buffer) (ps : List Bytes) → AllHold bs ps → length bs ≡ length ps
length-AllHold [] [] hold = refl
length-AllHold [] (p ∷ ps) hold = absurd hold
length-AllHold (b ∷ bs) [] hold = absurd hold
length-AllHold (b ∷ bs) (p ∷ ps) (holds, hold) = ap suc (length-AllHold bs ps hold)

module _ {F : Type 0} (alloc : Allocator) (fs : Files F) (laws : FileLaws fs) where
  -- The loop over a whole file.
  pub whole_file :
      (extra h : ℕ) (name : Bytes) (f f1 : F) (text : Bytes)
      → fs.fopen_read name f ≡ (f1, some h)
      → fs.content f name ≡ text
      → (f2 : F) × (cs : List Buffer) × (file_chunks alloc fs (rounds_of text + 2 + extra) h f1 []
          ≡ ok (f2, cs))
        × AllHold cs (pieces (rounds_of text) text)
  whole_file extra h name f f1 text opened is =
      let n = rounds_of text in
      let (lo, hi) = rounds_bound text in
      let (unread, begun) = laws.fopen_read_start name f opened in
      let (f2, cs, loops, hold) =
        file_chunks_lem alloc fs laws n extra h f1 [] text begun (unread ∙ is) lo hi in
      let fuel : n + 2 + extra ≡ suc (suc (n + extra)) = omega arith in
      (f2, cs, ap (λ k. file_chunks alloc fs k h f1 []) fuel ∙ loops, hold)
