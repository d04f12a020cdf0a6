-- ===== src/Buffer/Moves.antt =====
-- `shrink`, `extend`, `ending` and `reset` on a valid buffer.
use aspr1net.Base.{
  ap, sym, ◌⊎◌, inl, inr, ℕ, zero, suc, ◌+◌, ◌-◌, ◌≤◌, ◌<◌, [], ◌∷◌, ◌≡◌, refl, arith, ok, ◌==◌,
  Bytes, length, take, drop, size_mod, ◌∙◌, length-take, length-drop, take-drop, Bool-cases, inl,
  inr, get_elem?, some,
}
use aspr1net.Buffer.Memory.{
  mem_read, mem_read-ok, mem_write-ok, overwrite, length-overwrite, take-overwrite,
  take-overwrite_below, get_elem?-overwrite,
}
use aspr1net.Buffer.{
  Allocator, Buffer, default_buff_size, readable_size, writeable_size, shrink, ending, reset,
  create, contents,
}

-- The indices in order within the block, whose size is a size_t.
pub record IsValid (b : Buffer) : Type 0 where
  pub ordered : b.read_idx ≤ b.write_idx
  pub within : b.write_idx ≤ b.size
  pub sized : length b.buff ≡ b.size
  pub small : b.size < size_mod

pub create-IsValid : (alloc : Allocator) → IsValid (create alloc)
unfolding create
create-IsValid alloc = record {
  ordered = omega arith;
  within = omega arith;
  sized = alloc.length-fresh default_buff_size;
  small = omega arith;
}

pub reset-IsValid : {b : Buffer} → IsValid b → IsValid (reset b)
unfolding reset
reset-IsValid v = ground arith

-- The state after `shrink`.
abbrev pub shrunk : Buffer → Buffer
shrunk b = record b {
  buff = overwrite b.buff 0 (contents b);
  read_idx = 0;
  write_idx = b.write_idx - b.read_idx;
}

pub contents-from_start : (m : Bytes) (r w : ℕ) → r ≡ 0 → take (w - r) (drop r m) ≡ take w m
contents-from_start m zero w e = let same : w - 0 ≡ w = omega arith in rw same
contents-from_start m (suc r) w e = absurd (omega arith)

module _ (b : Buffer) (v : IsValid b) where
  pub length-contents : length (contents b) ≡ b.write_idx - b.read_idx
  length-contents = omega (
    arith,
    length-take (b.write_idx - b.read_idx) (drop b.read_idx b.buff),
    length-drop b.read_idx b.buff,
    v.ordered,
    v.within,
    v.sized,
  )

  pub readable_size-ok : readable_size b ≡ ok (b.write_idx - b.read_idx)
  unfolding readable_size
  readable_size-ok = ground (arith, v.ordered, v.within)

  pub writeable_size-ok : writeable_size b ≡ ok (b.size - b.write_idx)
  unfolding writeable_size
  writeable_size-ok = ground (arith, v.ordered, v.within)

  fits_front : 0 + length (contents b) ≤ length b.buff
  fits_front = omega (arith, length-contents, v.ordered, v.within, v.sized)

  pub shrink-shrunk : shrink b ≡ ok (shrunk b)
  unfolding shrink
  shrink-shrunk = ground (
    arith,
    readable_size-ok,
    mem_read-ok b.buff b.read_idx (b.write_idx - b.read_idx),
    mem_write-ok b.buff 0 (contents b),
    fits_front,
    v.ordered,
    v.within,
    v.sized,
  )

  pub shrunk-IsValid : IsValid (shrunk b)
  shrunk-IsValid = record {
    ordered = omega arith;
    within = omega (arith, v.within);
    sized = length-overwrite b.buff 0 (contents b) fits_front ∙ v.sized;
    small = v.small;
  }

  pub contents-shrunk : contents (shrunk b) ≡ contents b
  contents-shrunk =
      contents-from_start (shrunk b).buff 0 (b.write_idx - b.read_idx) refl
      ∙ take-overwrite b.buff 0 (contents b) (b.write_idx - b.read_idx) fits_front
          (omega (arith, length-contents))

-- `shrink` of a valid buffer moves the readable bytes to the front of the same block, and changes
-- none of them.
pub shrink_lem :
    (b : Buffer)
    → IsValid b
    → (s : Buffer) × (shrink b ≡ ok s)
      × IsValid s
      × (contents s ≡ contents b)
      × (s.read_idx ≡ 0)
      × (s.size ≡ b.size)
shrink_lem b v = (shrunk b, shrink-shrunk b v, shrunk-IsValid b v, contents-shrunk b v, refl, refl)

-- The bytes between two indices are those of any memory that agrees below the upper one.
same_text :
    (m n : Bytes) (r w : ℕ)
    → r ≤ w
    → take w n ≡ take w m
    → take (w - r) (drop r n) ≡ take (w - r) (drop r m)
same_text m n r w h e =
    let up_to : r + (w - r) ≡ w = omega arith in
    rw (take-drop (w - r) r n, take-drop (w - r) r m, up_to, e)

no_room : (b : Buffer) → IsValid b → b.size - b.write_idx ≡ 0 → b.size ≤ b.write_idx
no_room b v h = omega (arith, v.within)

-- `ending` of a valid buffer puts a NUL behind the readable bytes unless the block is full, and
-- changes none of them.
pub ending_lem :
    (b : Buffer)
    → IsValid b
    → (e : Buffer) × (ending b ≡ ok e)
      × IsValid e
      × (contents e ≡ contents b)
      × ((b.write_idx ≡ b.size) ⊎ (get_elem? e.buff e.write_idx ≡ some 0))
unfolding ending
ending_lem b v = elim (Bool-cases (b.size - b.write_idx == 0)) [
  | inl full ↦ (
    b,
    ground (arith, writeable_size-ok b v),
    v,
    refl,
    inl (omega (arith, v.within, no_room b v (ground arith))),
  )
  | inr room ↦
      let w = b.write_idx in
      let fits : w + 1 ≤ length b.buff = ground arith in
      (
        record b { buff = overwrite b.buff w (0 ∷ []) },
        ground (arith, writeable_size-ok b v, mem_write-ok b.buff w (0 ∷ [])),
        record {
          ordered = v.ordered;
          within = v.within;
          sized = length-overwrite b.buff w (0 ∷ []) fits ∙ v.sized;
          small = v.small;
        },
        same_text b.buff (overwrite b.buff w (0 ∷ [])) b.read_idx w v.ordered
            (take-overwrite_below w b.buff w (0 ∷ []) (omega arith) (omega arith)),
        inr (get_elem?-overwrite b.buff w 0 fits),
      )
]

-- What can be read of a buffer that is read from its start stands at the start of its block.
pub mem_read-contents :
    (b : Buffer)
    → IsValid b
    → b.read_idx ≡ 0
    → mem_read b.buff 0 (b.write_idx - b.read_idx) ≡ ok (contents b)
mem_read-contents b v start =
    let n = b.write_idx - b.read_idx in
    mem_read-ok b.buff 0 n (omega (arith, v.within, v.sized))
    ∙ ap (λ k. ok (take n (drop k b.buff))) (sym start)
