-- ===== src/Console/Bounds.antt =====
-- `fgetline` keeps within its block, and what it takes for a line.
use aspr1net.Base.{
  ℕ, zero, suc, ◌+◌, ◌-◌, ◌≤◌, ◌<◌, Bool, true, false, ◌&&◌, ◌==◌, [], ◌∷◌, ◌++◌, ◌≡◌, ◌≢◌, refl,
  sym, ap, ◌∙◌, arith, ok, ltb, Bytes, length, take, Bool-cases, inl, inr, ◌⊎◌, get_elem?, some,
  All, append-nil, append_assoc,
}
use aspr1net.Base.Int.{pos, minus_one}
use aspr1net.Buffer.Memory.{
  mem_write-ok, overwrite, length-overwrite, take-overwrite_below, get_elem?-overwrite,
}
use aspr1net.Console.{Line, end_line, get_chars, fgetline}

-- The text behind the first `len` characters of a block, as `fgetline` with room for `n` characters
-- takes it from the input.
pub record Reads (n len : ℕ) (block input : Bytes) (r : Line) : Type 0 where
  pub text : Bytes
  pub status : r.status ≡ pos (len + length text)
  pub room : len + length text ≤ n
  pub sized : length r.block ≡ length block
  pub stored : take (len + length text) r.block ≡ take len block ++ text
  pub ended : get_elem? r.block (len + length text) ≡ some 0
  pub one_line : All (λ c. c ≢ 10) text
  -- It ends with the input, or with a character that is dropped: a line feed, or any at all where
  -- there is no more room.
  pub taken :
      ((input ≡ text) × (r.rest ≡ []))
      ⊎ ((c : ℕ) × (input ≡ text ++ c ∷ r.rest) × ((c ≡ 10) ⊎ (len + length text ≡ n)))

ended : Bytes → ℕ → Bytes → Line
ended block len rest = record {
  block = overwrite block len (0 ∷ []);
  rest = rest;
  status = pos len;
}

end_line-ended :
    (block : Bytes) (len : ℕ) (eof : Bool) (rest : Bytes)
    → len < length block
    → ((len == 0) && eof) ≡ false
    → end_line block len eof rest ≡ ok (ended block len rest)
unfolding ended
end_line-ended block len eof rest h some_text =
    ground (arith, some_text, mem_write-ok block len (0 ∷ []))

module _ (n len : ℕ) (block input rest : Bytes) (fits : len ≤ n) (room : n < length block) where
  Reads-ended :
      ((input ≡ []) × (rest ≡ [])) ⊎ ((c : ℕ) × (input ≡ c ∷ rest) × ((c ≡ 10) ⊎ (len + 0 ≡ n)))
      → Reads n len block input (ended block len rest)
  unfolding ended
  Reads-ended taken =
      let same : len + 0 ≡ len = omega arith in
      record {
        text = [];
        status = ap pos (sym same);
        room = omega arith;
        sized = length-overwrite block len (0 ∷ []) (omega arith);
        stored =
            ap (λ k. take k (overwrite block len (0 ∷ []))) same
            ∙ take-overwrite_below len block len (0 ∷ []) (omega arith) (omega arith)
            ∙ sym (append-nil (take len block));
        ended =
            ap (get_elem? (overwrite block len (0 ∷ []))) same
            ∙ get_elem?-overwrite block len 0 (omega arith);
        one_line = tt;
        taken = taken;
      }

-- A character in front of what the rest of the loop takes.
module _ (n len c : ℕ) (block cs : Bytes) (r : Line) (room : len < length block)
    (c_is : c ≢ 10) where
  Reads-after : Reads n (suc len) (overwrite block len (c ∷ [])) cs r → Reads n len block (c ∷ cs) r
  Reads-after rec =
      let same : suc len + length rec.text ≡ len + length (c ∷ rec.text) = omega arith in
      record {
        text = c ∷ rec.text;
        status = rec.status ∙ ap pos same;
        room = omega (arith, rec.room);
        sized = rec.sized ∙ length-overwrite block len (c ∷ []) (omega arith);
        stored =
            ap (λ k. take k r.block) (sym same)
            ∙ rec.stored
            ∙ ap (λ x. x ++ rec.text) (take_one block len room)
            ∙ append_assoc (take len block) (c ∷ []) rec.text;
        ended = ap (get_elem? r.block) (sym same) ∙ rec.ended;
        one_line = (c_is, rec.one_line);
        taken = elim rec.taken [
          | inl (all, none_left) ↦ inl (ap (λ x. c ∷ x) all, none_left)
          | inr (d, is, why) ↦ inr (
            d,
            ap (λ x. c ∷ x) is,
            elim why [ inl line ↦ inl line | inr full ↦ inr (sym same ∙ full) ],
          )
        ];
      }
    where
      take_one :
          (m : Bytes) (i : ℕ)
          → i < length m
          → take (suc i) (overwrite m i (c ∷ [])) ≡ take i m ++ c ∷ []
      take_one [] i h = absurd (omega arith)
      take_one (x ∷ m) zero h = refl
      take_one (x ∷ m) (suc i) h =
          let same : suc i + 1 ≡ suc (i + 1) = omega arith in
          rw same (ap (λ y. x ∷ y) (take_one m i (omega arith)))

-- The end of the file in front of the first character gives -1.
abbrev pub Ends : Bytes → Bytes → Line → Type 0
Ends block input r = (input ≡ []) × (r ≡ record { block = block; rest = []; status = minus_one })

get_chars_lem :
    (input block : Bytes) (n len : ℕ)
    → len ≤ n
    → n < length block
    → (r : Line) × (get_chars n block len input ≡ ok r)
      × (((len ≡ 0) × Ends block input r) ⊎ ((0 < len + length input) × Reads n len block input r))
unfolding get_chars
get_chars_lem [] block n zero fits room =
    (record { block = block; rest = []; status = minus_one }, refl, inl (refl, (refl, refl)))
get_chars_lem [] block n (suc len) fits room = (
  ended block (suc len) [],
  end_line-ended block (suc len) true [] (omega arith) (ground arith),
  inr (omega arith, Reads-ended n (suc len) block [] [] fits room (inl (refl, refl))),
)
get_chars_lem (c ∷ cs) block n len fits room = elim (Bool-cases (ltb len n)) [
  | inr full ↦ (
    ended block len cs,
    rw full (end_line-ended block len false cs (omega arith) (ground arith)),
    inr (
      omega arith,
      Reads-ended n len block (c ∷ cs) cs fits room (inr (c, refl, inr (ground arith))),
    ),
  )
  | inl more ↦ elim (Bool-cases (c == 10)) [
    | inl line ↦ (
      ended block len cs,
      rw more (rw line (end_line-ended block len false cs (omega arith) (ground arith))),
      inr (
        omega arith,
        Reads-ended n len block (c ∷ cs) cs fits room (inr (c, refl, inl (ground arith))),
      ),
    )
    | inr char ↦
        let put = overwrite block len (c ∷ []) in
        let size : length put ≡ length block = length-overwrite block len (c ∷ []) (omega arith) in
        let next : suc len ≤ n = ground arith in
        let (r, done, rec) = get_chars_lem cs put n (suc len) next (omega arith) in
        (
          r,
          rw more (rw char (rw (mem_write-ok block len (c ∷ []) (omega arith)) done)),
          elim rec [
            | inl (zero_len, end) ↦ absurd (omega arith)
            | inr (some_text, reads) ↦ inr (
              omega arith,
              Reads-after n len c block cs r (omega arith) (λ e. ground arith) reads,
            )
          ],
        )
  ]
]

-- `fgetline` returns for a block with room for `n` characters, `n` not being 0, and writes to none
-- behind them: it returns -1 and leaves the block if the input has ended, and only then. On an input
-- that has a character, the block holds a text of fewer than `n` characters, none of them a line feed, with a NUL behind it, and the length of the text is
-- returned. The text stands at the start of the input, and the input goes on behind one character
-- more: a line feed, or the first character that had no room.
pub fgetline_lem :
    (block input : Bytes) (n : ℕ)
    → 0 < n
    → n ≤ length block
    → (r : Line) × (fgetline block n input ≡ ok r)
      × (Ends block input r ⊎ ((0 < length input) × Reads (n - 1) 0 block input r))
unfolding fgetline
fgetline_lem block input n some_room fits =
    let (r, done, reads) = get_chars_lem input block (n - 1) 0 (omega arith) (omega arith) in
    (
      r,
      done,
      elim reads [ inl (e, end) ↦ inl end | inr (some_input, read) ↦ inr (omega arith, read) ],
    )
