-- ===== src/Chunks/Read.antt =====
-- The loop over fread ends, and its buffers are the pieces of the file, packed.
use aspr1net.Base.{
  ℕ, zero, suc, ◌+◌, ◌*◌, ◌≤◌, ◌<◌, false, true, List, [], ◌∷◌, ◌++◌, ◌≡◌, refl, sym, ap, ◌∙◌,
  arith, ok, Bytes, length, take, drop, length-append, length-drop, length-take, length-le_bytes,
  append_assoc, take-append, drop-append, take-append-drop, take-all, subst,
}
use aspr1net.Buffer.{Allocator, Buffer, head_bytes}
use aspr1net.Buffer.Memory.{
  mem_write-ok, overwrite, length-overwrite, get_elem?-overwrite, take-overwrite_below,
}
use aspr1net.Buffer.Write.{Holds}
use aspr1net.Stdio.{Files, FileLaws}
use aspr1net.Wire.{packed}
use aspr1net.Wire.Exact.{same_front}
use aspr1net.Chunks.{chunk, file_chunks}
use aspr1net.Chunks.Pieces.{piece_size, pieces}

-- What `chunk` leaves.
abbrev chunk_of : Allocator → Bytes → Buffer
chunk_of alloc bs = record {
  buff =
      overwrite (overwrite (overwrite (alloc.fresh 1024) 8 bs) 0 (head_bytes (length bs)))
        (length bs + 8) (0 ∷ []);
  size = 1024;
  read_idx = 0;
  write_idx = length bs + 8;
}

module _ (alloc : Allocator) (bs : Bytes) (short : length bs ≤ piece_size) where
  block-size : length (alloc.fresh 1024) ≡ 1024
  block-size = alloc.length-fresh 1024

  filled-size : length (overwrite (alloc.fresh 1024) 8 bs) ≡ 1024
  filled-size = omega (arith, block-size, length-overwrite (alloc.fresh 1024) 8 bs)

  head-size : length (head_bytes (length bs)) ≡ 8
  head-size = length-le_bytes 8 (length bs)

  headed-size :
      length (overwrite (overwrite (alloc.fresh 1024) 8 bs) 0 (head_bytes (length bs))) ≡ 1024
  headed-size = omega (
    arith,
    filled-size,
    head-size,
    length-overwrite (overwrite (alloc.fresh 1024) 8 bs) 0 (head_bytes (length bs)),
  )

  chunk-ok : chunk alloc bs ≡ ok (chunk_of alloc bs)
  unfolding chunk
  chunk-ok = ground (
    arith,
    block-size,
    filled-size,
    head-size,
    headed-size,
    mem_write-ok (alloc.fresh 1024) 8 bs,
    mem_write-ok (overwrite (alloc.fresh 1024) 8 bs) 0 (head_bytes (length bs)),
    mem_write-ok (overwrite (overwrite (alloc.fresh 1024) 8 bs) 0 (head_bytes (length bs)))
        (length bs + 8) (0 ∷ []),
  )

  -- The block up to the NUL: the head, and the payload behind it.
  front :
      take
        (length bs + 8)
        (overwrite (overwrite (alloc.fresh 1024) 8 bs) 0 (head_bytes (length bs)))
      ≡ packed bs
  front =
      let m = alloc.fresh 1024 in
      let head = head_bytes (length bs) in
      let behind = drop (8 + length bs) m in
      let eight : length (take 8 m) ≡ 8 = omega (arith, block-size, length-take 8 m) in
      let at_eight : 0 + length head ≡ length (take 8 m) = omega (arith, head-size, eight) in
      let whole : length bs + 8 ≡ length (head ++ bs) =
        omega (arith, head-size, length-append head bs) in
      ap (λ k. take (length bs + 8) (head ++ drop k (overwrite m 8 bs))) at_eight
      ∙ ap (λ x. take (length bs + 8) (head ++ x)) (drop-append (take 8 m) (bs ++ behind))
      ∙ ap (take (length bs + 8)) (sym (append_assoc head bs behind))
      ∙ ap (λ k. take k ((head ++ bs) ++ behind)) whole
      ∙ take-append (head ++ bs) behind

  pub chunk-Holds : (c : Buffer) × (chunk alloc bs ≡ ok c) × Holds (head_bytes (length bs)) bs c
  chunk-Holds = (
    chunk_of alloc bs,
    chunk-ok,
    record {
      valid = record {
        ordered = omega arith;
        within = omega arith;
        sized = omega (
          arith,
          headed-size,
          length-overwrite
              (overwrite (overwrite (alloc.fresh 1024) 8 bs) 0 (head_bytes (length bs)))
              (length bs + 8) (0 ∷ []),
        );
        small = omega arith;
      };
      from_start = refl;
      up_to = omega (arith, head-size);
      readable =
          ap (λ n. take n (chunk_of alloc bs).buff) (omega arith)
          ∙ take-overwrite_below (length bs + 8)
              (overwrite (overwrite (alloc.fresh 1024) 8 bs) 0 (head_bytes (length bs)))
              (length bs + 8) (0 ∷ []) (omega arith) (omega (arith, headed-size))
          ∙ front;
      terminated =
          get_elem?-overwrite
            (overwrite (overwrite (alloc.fresh 1024) 8 bs) 0 (head_bytes (length bs)))
            (length bs + 8) 0 (omega (arith, headed-size));
    },
  )

-- The buffers hold the payloads, packed.
abbrev pub AllHold : List Buffer → List Bytes → Type 0
AllHold [] [] = Unit
AllHold [] (p ∷ ps) = ⊥
AllHold (b ∷ bs) [] = ⊥
AllHold (b ∷ bs) (p ∷ ps) = Holds (head_bytes (length p)) p b × AllHold bs ps

module _ {F : Type 0} (alloc : Allocator) (fs : Files F) (laws : FileLaws fs) where
  -- A read of a piece.
  fread_piece :
      (h : ℕ) (f : F)
      → ((fs.fread h piece_size f).1 ≡ take piece_size (fs.unread f h))
        × (fs.unread (fs.fread h piece_size f).0 h ≡ drop piece_size (fs.unread f h))
  fread_piece h f =
      let u = fs.unread f h in
      same_front (fs.fread h piece_size f).1 (fs.unread (fs.fread h piece_size f).0 h)
        (take piece_size u) (drop piece_size u)
        (sym (laws.fread_takes h piece_size f) ∙ sym (take-append-drop piece_size u))
        (laws.fread_full h piece_size f ∙ sym (length-take piece_size u))

  -- The last piece is short, so that the loop ends.
  last_chunk :
      (extra h : ℕ) (f : F) (done : List Buffer) (c : Buffer)
      → fs.feof h f ≡ false
      → fs.feof h (fs.fread h piece_size f).0 ≡ true
      → chunk alloc (fs.fread h piece_size f).1 ≡ ok c
      → file_chunks alloc fs (suc (suc extra)) h f done
        ≡ ok ((fs.fread h piece_size f).0, done ++ c ∷ [])
  unfolding file_chunks
  last_chunk extra h f done c begun ended packs = ground (arith, begun, ended, packs)

  next_chunk :
      (n h : ℕ) (f : F) (done : List Buffer) (c : Buffer)
      → fs.feof h f ≡ false
      → chunk alloc (fs.fread h piece_size f).1 ≡ ok c
      → file_chunks alloc fs (suc n) h f done
        ≡ file_chunks alloc fs n h (fs.fread h piece_size f).0 (done ++ c ∷ [])
  unfolding file_chunks
  next_chunk n h f done c begun packs = ground (arith, begun, packs)

  -- On a stream that has n pieces and less than one more to read, n + 2 rounds are enough: the loop
  -- adds a buffer for each piece.
  pub file_chunks_lem :
      (n extra h : ℕ) (f : F) (done : List Buffer) (text : Bytes)
      → fs.feof h f ≡ false
      → fs.unread f h ≡ text
      → piece_size * n ≤ length text
      → length text < piece_size * n + piece_size
      → (f' : F) × (cs : List Buffer) × (file_chunks alloc fs (suc (suc (n + extra))) h f done
          ≡ ok (f', done ++ cs))
        × AllHold cs (pieces n text)
  unfolding pieces
  file_chunks_lem zero extra h f done text begun is lo hi =
      let (got, left) = fread_piece h f in
      let size : length (fs.fread h piece_size f).1 ≡ length text =
        omega (arith, laws.fread_full h piece_size f, ap length is) in
      let all : (fs.fread h piece_size f).1 ≡ text =
        got ∙ ap (take piece_size) is ∙ take-all piece_size text (omega arith) in
      let (c, packs, holds) = chunk-Holds alloc (fs.fread h piece_size f).1 (omega arith) in
      let ended : fs.feof h (fs.fread h piece_size f).0 ≡ true =
        ground (arith, laws.fread_end h piece_size f) in
      let fuel : suc (suc (zero + extra)) ≡ suc (suc extra) = omega arith in
      (
        (fs.fread h piece_size f).0,
        c ∷ [],
        ap (λ k. file_chunks alloc fs k h f done) fuel
            ∙ last_chunk extra h f done c begun ended packs,
        (subst (λ x. Holds (head_bytes (length x)) x c) all holds, tt),
      )
  file_chunks_lem (suc n) extra h f done text begun is lo hi =
      let (got, left) = fread_piece h f in
      let f1 = (fs.fread h piece_size f).0 in
      let bs = (fs.fread h piece_size f).1 in
      let size : length bs ≡ piece_size =
        omega (arith, laws.fread_full h piece_size f, ap length is) in
      let first : bs ≡ take piece_size text = got ∙ ap (take piece_size) is in
      let (c, packs, holds) = chunk-Holds alloc bs (omega arith) in
      let going : fs.feof h f1 ≡ false = ground (arith, laws.fread_end h piece_size f) in
      let rest = left ∙ ap (drop piece_size) is in
      let dropped = length-drop piece_size text in
      let (f2, cs, loops, hold) =
        file_chunks_lem n extra h f1 (done ++ c ∷ []) (drop piece_size text) going rest
          (omega arith) (omega arith) in
      let fuel : suc (suc (suc n + extra)) ≡ suc (suc (suc (n + extra))) = omega arith in
      (
        f2,
        c ∷ cs,
        ap (λ k. file_chunks alloc fs k h f done) fuel
            ∙ next_chunk (suc (suc (n + extra))) h f done c begun packs
            ∙ loops
            ∙ ap (λ x. ok (f2, x)) (append_assoc done (c ∷ []) cs),
        (subst (λ x. Holds (head_bytes (length x)) x c) first holds, hold),
      )
