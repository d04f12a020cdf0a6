-- ===== src/Buffer/Write.antt =====
-- `write` where the package fits into the buffer as it is.
use aspr1net.Base.{
  ℕ, ◌+◌, ◌≤◌, [], ◌∷◌, ◌++◌, ◌≡◌, refl, arith, ok, Bytes, length, take, ◌∙◌, ap, le_bytes,
  length-le_bytes, some, get_elem?,
}
use aspr1net.Buffer.Memory.{
  mem_write-ok, overwrite, length-overwrite, take-overwrite, get_elem?-overwrite,
  take-overwrite_below, strlen, c_string,
}
use aspr1net.Buffer.Moves.{IsValid, contents-from_start}
use aspr1net.Buffer.{
  Allocator, Buffer, reset, writeable_size, head_bytes, begin_package, end_package, write_str,
  write_int, contents,
}

module _ (alloc : Allocator) (b : Buffer) (v : IsValid b) where
  -- A head, with room behind it for the payload and a NUL.
  pub begin_package_fits :
      (len : ℕ)
      → len + 9 ≤ b.size
      → begin_package alloc b len
        ≡ ok (record b { buff = overwrite b.buff 0 (head_bytes len); read_idx = 0; write_idx = 8 })
  unfolding begin_package reset writeable_size
  begin_package_fits len h =
      ground (arith, mem_write-ok b.buff 0 (head_bytes len), length-le_bytes 8 len)

abbrev ended : Buffer → ℕ → Bytes → Buffer
ended b at_idx payload = record b {
  buff = overwrite (overwrite b.buff at_idx payload) (b.write_idx + length payload) (0 ∷ []);
  write_idx = b.write_idx + length payload;
}

end_package-ok :
    (b : Buffer) (at_idx : ℕ) (payload : Bytes)
    → at_idx + length payload ≤ length b.buff
    → b.write_idx + length payload + 1 ≤ length b.buff
    → end_package b at_idx payload ≡ ok (ended b at_idx payload)
unfolding end_package
end_package-ok b at_idx payload h k = ground (
  arith,
  mem_write-ok b.buff at_idx payload,
  length-overwrite b.buff at_idx payload,
  mem_write-ok (overwrite b.buff at_idx payload) (b.write_idx + length payload) (0 ∷ []),
)

-- A buffer that is ready to be flushed: the head bytes and the payload are its readable contents,
-- from the start of the block, and a NUL stands behind them.
pub record Holds (head payload : Bytes) (b : Buffer) : Type 0 where
  pub valid : IsValid b
  pub from_start : b.read_idx ≡ 0
  pub up_to : b.write_idx ≡ length head + length payload
  pub readable : contents b ≡ head ++ payload
  pub terminated : get_elem? b.buff b.write_idx ≡ some 0

-- What `begin_package` leaves, for the head `head` and room for the payload.
pub record Ready (head : Bytes) (room : ℕ) (b : Buffer) : Type 0 where
  pub valid : IsValid b
  pub from_start : b.read_idx ≡ 0
  pub at_payload : b.write_idx ≡ 8
  pub eight : length head ≡ 8
  pub headed : take 8 b.buff ≡ head
  pub roomy : 8 + room + 1 ≤ b.size

pub end_package-Holds :
    (head payload : Bytes) (b : Buffer)
    → Ready head (length payload) b
    → (end : Buffer) × (end_package b 8 payload ≡ ok end)
      × Holds head payload end
      × (end.size ≡ b.size)
end_package-Holds head payload b r =
    let filled = overwrite b.buff 8 payload in
    let w = b.write_idx + length payload in
    let fits : 8 + length payload ≤ length b.buff = omega arith in
    let room : w + 1 ≤ length b.buff = omega arith in
    let same = length-overwrite b.buff 8 payload fits in
    let room' : w + 1 ≤ length filled = omega arith in
    let text =
      contents-from_start (overwrite filled w (0 ∷ [])) b.read_idx w r.from_start
      ∙ take-overwrite_below w filled w (0 ∷ []) (omega arith) (omega arith)
      ∙ take-overwrite b.buff 8 payload w fits (omega arith)
      ∙ ap (λ xs. xs ++ payload) r.headed in
    (
      ended b 8 payload,
      end_package-ok b 8 payload fits room,
      record {
        valid = record {
          ordered = omega arith;
          within = omega arith;
          sized = omega (arith, length-overwrite filled w (0 ∷ []) room');
          small = r.valid.small;
        };
        from_start = r.from_start;
        up_to = omega arith;
        readable = text;
        terminated = get_elem?-overwrite filled w 0 room';
      },
      refl,
    )

begin_package-Ready :
    (alloc : Allocator) (b : Buffer)
    → IsValid b
    → (len room : ℕ) → room ≡ len
    → len + 9 ≤ b.size
    → (r : Buffer) × (begin_package alloc b len ≡ ok r)
      × Ready (head_bytes len) room r
      × (r.size ≡ b.size)
begin_package-Ready alloc b v len room e h =
    let eight = length-le_bytes 8 len in
    let fits : 0 + length (head_bytes len) ≤ length b.buff = omega arith in
    (
      record b { buff = overwrite b.buff 0 (head_bytes len); read_idx = 0; write_idx = 8 },
      begin_package_fits alloc b v len h,
      record {
        valid = record {
          ordered = omega arith;
          within = omega arith;
          sized = omega (arith, length-overwrite b.buff 0 (head_bytes len) fits);
          small = v.small;
        };
        from_start = refl;
        at_payload = refl;
        eight = eight;
        headed = take-overwrite b.buff 0 (head_bytes len) 8 fits (omega arith);
        roomy = omega arith;
      },
      refl,
    )

-- A text that fits with its head and a NUL into the block of a valid buffer is stored there as a
-- package: the head holds its length, the payload is the text, and the block keeps its size.
pub write_str_fits :
    (alloc : Allocator) (b : Buffer) (text : Bytes)
    → IsValid b
    → strlen text + 9 ≤ b.size
    → (end : Buffer) × (write_str alloc b text ≡ ok end)
      × Holds (head_bytes (strlen text)) (c_string text) end
      × (end.size ≡ b.size)
unfolding write_str
write_str_fits alloc b text v h =
    let (r, began, ready, kept) =
      begin_package-Ready alloc b v (strlen text) (strlen text) refl h in
    let (end, done, holds, size) = end_package-Holds _ (c_string text) r ready in
    (end, ground (arith, began, done, ready.at_payload), holds, size ∙ kept)

-- A number is stored in a valid buffer as a package of its eight bytes, if these fit with their head
-- and a NUL into the block, which keeps its size.
pub write_int_fits :
    (alloc : Allocator) (b : Buffer) (n : ℕ)
    → IsValid b
    → 17 ≤ b.size
    → (end : Buffer) × (write_int alloc b n ≡ ok end)
      × Holds (head_bytes 8) (le_bytes 8 n) end
      × (end.size ≡ b.size)
unfolding write_int
write_int_fits alloc b n v h =
    let (r, began, ready, kept) =
      begin_package-Ready alloc b v 8 (length (le_bytes 8 n)) (length-le_bytes 8 n) h in
    let (end, done, holds, size) = end_package-Holds _ (le_bytes 8 n) r ready in
    (end, ground (arith, began, done), holds, size ∙ kept)
