-- ===== src/Chunks/Flush.antt =====
-- On a connection that stands, a flush sends what can be read of a buffer that is read from its start.
use aspr1net.Base.{
  ℕ, ◌+◌, ◌-◌, ◌%◌, ◌^◌, ◌<◌, List, [], ◌∷◌, ◌++◌, Option, some, ◌≡◌, refl, sym, ap, ◌∙◌, arith, ok,
  Bytes, length, take-all, append_assoc, append-nil, length-le_bytes, subst, le_bytes,
}
use aspr1net.Base.Int.{pos}
use aspr1net.Anet.{Os}
use aspr1net.Anet.Write.{write_all}
use aspr1net.Buffer.{Buffer, head_bytes, readable_size, contents}
use aspr1net.Buffer.Memory.{mem_read}
use aspr1net.Buffer.Moves.{IsValid, readable_size-ok, length-contents, mem_read-contents}
use aspr1net.Buffer.Write.{Holds}
use aspr1net.Wire.{packed, packages, write_fd}
use aspr1net.Wire.Exact.{Stands, write_all-exact}
use aspr1net.Chunks.{flush, flush_all}
use aspr1net.Chunks.Read.{AllHold}
use aspr1net.Chunks.Pieces.{AllSmall}

module _ {W : Type 0} (os : Os W) (fd : ℕ) (c : Stands os fd) where
  flush_steps :
      (b : Buffer) (bs : Bytes) (n : ℕ) (w : W) (r : W × Option ℕ)
      → readable_size b ≡ ok n
      → mem_read b.buff 0 n ≡ ok bs
      → length bs < 2 ^ 31
      → write_all os fd bs w ≡ ok r
      → flush os (pos fd) b w ≡ ok r
  unfolding flush write_fd
  flush_steps b bs n w r sized got small done =
      let count : length bs % 2 ^ 32 ≡ length bs = omega arith in
      rw (sized, got, count, take-all (length bs) bs (omega arith)) (ground (arith, done))

  -- A buffer that is read from its start, and is no larger than an int says.
  pub flush-sent :
      (b : Buffer) (w : W)
      → IsValid b
      → b.read_idx ≡ 0
      → b.write_idx < 2 ^ 31
      → (w' : W) × (flush os (pos fd) b w ≡ ok (w', some (length (contents b))))
        × (os.sent w' fd ≡ os.sent w fd ++ contents b)
        × (os.pending w' fd ≡ os.pending w fd)
  flush-sent b w v start small =
      let n = b.write_idx - b.read_idx in
      let (w', done, sent, kept) = write_all-exact os fd c (contents b) w in
      (
        w',
        flush_steps b (contents b) n w (w', some (length (contents b))) (readable_size-ok b v)
            (mem_read-contents b v start) (omega (arith, length-contents b v)) done,
        sent,
        kept,
      )

  -- The buffers of packages, one behind the other.
  pub flush_all-packages :
      (bs : List Buffer) (ps : List Bytes) (w : W)
      → AllHold bs ps
      → AllSmall ps
      → (w' : W) × (ns : List (Option ℕ)) × (flush_all os (pos fd) bs w ≡ ok (w', ns))
        × (os.sent w' fd ≡ os.sent w fd ++ packages ps)
        × (os.pending w' fd ≡ os.pending w fd)
  unfolding flush_all
  flush_all-packages [] [] w hold small = (w, [], refl, sym (append-nil (os.sent w fd)), refl)
  flush_all-packages [] (p ∷ ps) w hold small = absurd hold
  flush_all-packages (b ∷ bs) [] w hold small = absurd hold
  flush_all-packages (b ∷ bs) (p ∷ ps) w (holds, hold) (one, small) =
      let (w1, done, sent, kept) =
        flush-sent b w holds.valid holds.from_start
          (omega (arith, holds.up_to, length-le_bytes 8 (length p))) in
      let (w2, ns, rest, sent', kept') = flush_all-packages bs ps w1 hold small in
      (
        w2,
        some (length (contents b)) ∷ ns,
        rw done (rw rest refl),
        sent'
            ∙ ap (λ x. x ++ packages ps) (sent ∙ ap (λ x. os.sent w fd ++ x) holds.readable)
            ∙ append_assoc (os.sent w fd) (packed p) (packages ps),
        kept' ∙ kept,
      )

  -- A buffer and those of a list, as one flush sends them: the package of the first, and the others.
  pub flush_both :
      (p : Bytes) (ps : List Bytes) (b : Buffer) (bs : List Buffer) (w : W)
      → Holds (head_bytes (length p)) p b
      → length p + 8 < 2 ^ 31
      → AllHold bs ps
      → AllSmall ps
      → (w1 : W) × (w2 : W) × (ns : List (Option ℕ)) × (flush os (pos fd) b w
          ≡ ok (w1, some (length (contents b))))
        × (flush_all os (pos fd) bs w1 ≡ ok (w2, ns))
        × (os.sent w2 fd ≡ os.sent w fd ++ (packed p ++ packages ps))
        × (os.pending w2 fd ≡ os.pending w fd)
  flush_both p ps b bs w holds one hold small =
      let (w1, done, sent, kept) =
        flush-sent b w holds.valid holds.from_start
          (omega (arith, holds.up_to, length-le_bytes 8 (length p))) in
      let (w2, ns, rest, sent', kept') = flush_all-packages bs ps w1 hold small in
      (
        w1,
        w2,
        ns,
        done,
        rest,
        sent'
            ∙ ap (λ x. x ++ packages ps) (sent ∙ ap (λ x. os.sent w fd ++ x) holds.readable)
            ∙ append_assoc (os.sent w fd) (packed p) (packages ps),
        kept' ∙ kept,
      )

-- A buffer with a number, as `write_int_fits` leaves it.
pub number-Holds :
    (n : ℕ) (b : Buffer)
    → Holds (head_bytes 8) (le_bytes 8 n) b
    → Holds (head_bytes (length (le_bytes 8 n))) (le_bytes 8 n) b
number-Holds n b = subst (λ k. Holds (head_bytes k) (le_bytes 8 n) b) (sym (length-le_bytes 8 n))
