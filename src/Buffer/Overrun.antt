-- ===== src/Buffer/Overrun.antt =====
-- `write` where the package does not fit into the block as it is.
use aspr1net.Base.{
  ℕ, suc, ◌+◌, ◌-◌, ◌≤◌, ◌<◌, ◌%◌, [], ◌∷◌, ◌≡◌, refl, arith, ok, err, out_of_bounds, ltb, Bytes,
  length, take, size_mod, ◌∙◌, ap, take-append_le, take-all, Bool-cases, inl, inr, le_bytes,
  length-le_bytes, of_le_bytes,
}
use aspr1net.Buffer.Memory.{
  mem_write-ok, mem_write-err, overwrite, length-overwrite, take-overwrite, pad_string,
  length-pad_string, c_string, strlen,
}
use aspr1net.Buffer.Moves.{IsValid}
use aspr1net.Buffer.Grow.{grown, extend-grown, grown-IsValid, contents-grown, extend_enough}
use aspr1net.Buffer.Write.{Ready, Holds, end_package-Holds}
use aspr1net.Buffer.{
  Allocator, Buffer, head_bytes, writeable_size, reset, extend, begin_package, end_package,
  write_str, contents,
}

-- The buffer with the head of a package in front.
abbrev headed : Buffer → ℕ → Buffer
headed b len = record b { buff = overwrite b.buff 0 (head_bytes len); read_idx = 0; write_idx = 8 }

module _ (alloc : Allocator) (b : Buffer) (v : IsValid b) (len : ℕ) (eight : 8 ≤ b.size) where
  head_fits : 0 + length (head_bytes len) ≤ length b.buff
  head_fits = omega (arith, length-le_bytes 8 len, eight, v.sized)

  headed-IsValid : IsValid (headed b len)
  headed-IsValid = record {
    ordered = omega arith;
    within = eight;
    sized = length-overwrite b.buff 0 (head_bytes len) head_fits ∙ v.sized;
    small = v.small;
  }

  contents-headed : contents (headed b len) ≡ head_bytes len
  contents-headed =
      take-overwrite b.buff 0 (head_bytes len) 8 head_fits (omega (arith, length-le_bytes 8 len))

  -- The room asked of `extend` is what lacks, and not what the payload needs.
  begin_package-extend :
      b.size < len + 9
      → len + 1 < size_mod
      → begin_package alloc b len ≡ extend alloc (headed b len) (len + 9 - b.size)
  unfolding begin_package reset writeable_size
  begin_package-extend h small =
      let lack : (len + 1 + size_mod - (b.size - 8)) % size_mod ≡ len + 9 - b.size =
        omega (arith, h, small, eight, v.small) in
      ground (arith, mem_write-ok b.buff 0 (head_bytes len) head_fits, eight, h, small, lack)

  begin_package_short :
      b.size < len + 9
      → len + 9 ≤ b.size + (b.size - 8)
      → len + 1 < size_mod
      → begin_package alloc b len ≡ ok (headed b len)
  begin_package_short h k small =
      begin_package-extend h small
      ∙ extend_enough alloc (headed b len) (len + 9 - b.size) headed-IsValid (omega arith)

  abbrev renewed : Buffer
  renewed = grown alloc (headed b len) (len + 9 - b.size)

  -- The head goes through `strncpy`.
  begin_package_long :
      (room : ℕ)
      → room ≡ len
      → b.size + (b.size - 8) < len + 9
      → len + 9 < size_mod
      → (begin_package alloc b len ≡ ok renewed)
        × Ready (pad_string 8 (head_bytes len)) room renewed
        × (renewed.size ≡ len + 9)
  begin_package_long room e h small =
      let hv = headed-IsValid in
      let ext = len + 9 - b.size in
      let total : b.size + ext ≡ len + 9 = omega arith in
      let fits : b.size + ext < size_mod = omega arith in
      (
        begin_package-extend (omega arith) (omega arith)
            ∙ extend-grown alloc (headed b len) hv ext fits (omega arith),
        record {
          valid = grown-IsValid alloc (headed b len) hv ext fits;
          from_start = refl;
          at_payload = refl;
          eight = length-pad_string 8 (head_bytes len);
          headed =
              contents-grown alloc (headed b len) hv ext fits ∙ ap (pad_string 8) contents-headed;
          roomy = omega arith;
        },
        total,
      )

-- A text that lacks room in a valid buffer, but lacks no more of it than the buffer has behind the
-- head, is written past the end of the block: `extend` compares the room with what lacks, finds it
-- enough, and does not grow. The head fits into the block, and the length of the text into a size_t.
pub write_str_overruns :
    (alloc : Allocator) (b : Buffer) (text : Bytes)
    → IsValid b
    → 8 ≤ b.size
    → b.size < strlen text + 9
    → strlen text + 9 ≤ b.size + (b.size - 8)
    → strlen text + 1 < size_mod
    → write_str alloc b text ≡ err out_of_bounds
unfolding write_str end_package
write_str_overruns alloc b text v eight h k small =
    let payload = c_string text in
    let m = (headed b (strlen text)).buff in
    let began = begin_package_short alloc b v (strlen text) eight h k small in
    let sized : length m ≡ b.size = (headed-IsValid alloc b v (strlen text) eight).sized in
    elim (Bool-cases (ltb b.size (8 + length payload))) [
      | inl over ↦
          let past : suc (length m) ≤ 8 + length payload = ground arith in
          ground (arith, began, mem_write-err m 8 payload past)
      | inr exact ↦
          let fits : 8 + length payload ≤ length m = ground arith in
          let filled = overwrite m 8 payload in
          let past : suc (length filled) ≤ 8 + length payload + 1 =
            omega (arith, length-overwrite m 8 payload fits) in
          ground (
            arith,
            began,
            mem_write-ok m 8 payload fits,
            mem_write-err filled (8 + length payload) (0 ∷ []) past,
          )
    ]

-- A text that lacks more room in a valid buffer than there is behind the head is stored in a new
-- block of just its size, but `strncpy` has carried the head over: only up to its first zero byte.
-- The head fits into the old block, and the new size into a size_t.
pub write_str_long :
    (alloc : Allocator) (b : Buffer) (text : Bytes)
    → IsValid b
    → 8 ≤ b.size
    → b.size + (b.size - 8) < strlen text + 9
    → strlen text + 9 < size_mod
    → (end : Buffer) × (write_str alloc b text ≡ ok end)
      × Holds (pad_string 8 (head_bytes (strlen text))) (c_string text) end
      × (end.size ≡ strlen text + 9)
unfolding write_str
write_str_long alloc b text v eight h small =
    let (began, ready, size) =
      begin_package_long alloc b v (strlen text) eight (strlen text) refl h small in
    let (end, done, holds, kept) =
      end_package-Holds _ (c_string text) (renewed alloc b v (strlen text) eight) ready in
    (end, ground (arith, began, done), holds, kept ∙ size)

cut_head-zero : (n : ℕ) → n % 256 ≡ 0 → of_le_bytes (pad_string 8 (head_bytes n)) ≡ 0
unfolding pad_string le_bytes of_le_bytes
cut_head-zero n h = ground arith

-- So the head of such a text, if its length is a multiple of 256, says that the package is empty.
pub head_lost :
    (alloc : Allocator) (b : Buffer) (text : Bytes)
    → IsValid b
    → 8 ≤ b.size
    → b.size + (b.size - 8) < strlen text + 9
    → strlen text + 9 < size_mod
    → strlen text % 256 ≡ 0
    → (end : Buffer) × (write_str alloc b text ≡ ok end) × (of_le_bytes (take 8 (contents end)) ≡ 0)
head_lost alloc b text v eight h small low =
    let (end, done, holds, size) = write_str_long alloc b text v eight h small in
    let head = pad_string 8 (head_bytes (strlen text)) in
    let at_eight : 8 ≤ length head =
      omega (arith, length-pad_string 8 (head_bytes (strlen text))) in
    (
      end,
      done,
      ap (λ bs. of_le_bytes (take 8 bs)) holds.readable
          ∙ ap of_le_bytes (
              take-append_le 8 head (c_string text) at_eight
              ∙ take-all 8 head (omega (arith, length-pad_string 8 (head_bytes (strlen text)))))
          ∙ cut_head-zero (strlen text) low,
    )
