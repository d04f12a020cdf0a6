-- ===== src/Chunks/Pieces.antt =====
-- How a file is cut: pieces of 1015 bytes, and a shorter one, which may be empty, at the end.
use aspr1net.Base.{
  ℕ, zero, suc, ◌+◌, ◌*◌, ◌/◌, ◌^◌, ◌≤◌, ◌<◌, List, [], ◌∷◌, ◌++◌, ◌≡◌, refl, ap, ◌∙◌, arith, Bytes,
  length, take, drop, take-append-drop, length-drop, length-take, append-nil,
}
use aspr1net.Wire.{concat}

abbrev pub piece_size : ℕ
piece_size = 1015

unfoldable pub pieces : ℕ → Bytes → List Bytes
pieces zero text = text ∷ []
pieces (suc n) text = take piece_size text ∷ pieces n (drop piece_size text)

pub concat-pieces : (n : ℕ) (text : Bytes) → concat (pieces n text) ≡ text
unfolding pieces
concat-pieces zero text = append-nil text
concat-pieces (suc n) text =
    ap (λ x. take piece_size text ++ x) (concat-pieces n (drop piece_size text))
    ∙ take-append-drop piece_size text

pub length-pieces : (n : ℕ) (text : Bytes) → length (pieces n text) ≡ suc n
unfolding pieces
length-pieces zero text = refl
length-pieces (suc n) text = ap suc (length-pieces n (drop piece_size text))

-- All payloads fit into a block of the size, and none but the last is empty.
abbrev pub AreChunks : ℕ → List Bytes → Type 0
AreChunks size [] = Unit
AreChunks size (p ∷ []) = length p ≤ size
AreChunks size (p ∷ q ∷ ps) = (length p ≤ size) × (0 < length p) × AreChunks size (q ∷ ps)

-- The packages fit into an int each.
abbrev pub AllSmall : List Bytes → Type 0
AllSmall [] = Unit
AllSmall (p ∷ ps) = (length p + 8 < 2 ^ 31) × AllSmall ps

-- The pieces of a text that ends in the last one.
module _ (size : ℕ) (large : piece_size ≤ size) where
  AreChunks-after :
      (p : Bytes) (ps : List Bytes)
      → length p ≤ size
      → 0 < length p
      → AreChunks size ps
      → AreChunks size (p ∷ ps)
  AreChunks-after p [] fits more rest = fits
  AreChunks-after p (q ∷ ps) fits more rest = (fits, more, rest)

  pub pieces-AreChunks :
      (n : ℕ) (text : Bytes)
      → piece_size * n ≤ length text
      → length text < piece_size * n + piece_size
      → AreChunks size (pieces n text) × AllSmall (pieces n text)
  unfolding pieces
  pieces-AreChunks zero text lo hi = (omega arith, (omega arith, tt))
  pieces-AreChunks (suc n) text lo hi =
      let dropped = length-drop piece_size text in
      let taken = length-take piece_size text in
      let (chunks, small) = pieces-AreChunks n (drop piece_size text) (omega arith) (omega arith) in
      (
        AreChunks-after (take piece_size text) (pieces n (drop piece_size text)) (omega arith)
            (omega arith) chunks,
        (omega arith, small),
      )

-- A whole file in pieces.
abbrev pub rounds_of : Bytes → ℕ
rounds_of text = length text / piece_size

pub rounds_bound :
    (text : Bytes)
    → (piece_size * rounds_of text ≤ length text)
      × (length text < piece_size * rounds_of text + piece_size)
rounds_bound text = (omega arith, omega arith)
