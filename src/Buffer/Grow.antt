-- ===== src/Buffer/Grow.antt =====
-- `extend`.
use aspr1net.Base.{
  ℕ, ◌+◌, ◌-◌, ◌≤◌, ◌<◌, ◌≡◌, refl, arith, ok, ltb, length, size_mod, ◌∙◌, ap, take-append_le,
  Bool-cases, inl, inr, sym,
}
use aspr1net.Buffer.Memory.{
  mem_write-ok, overwrite, length-overwrite, strncpy-ok, pad_string, length-pad_string,
  take-pad_string, pad_string-no_nul, c_string,
}
use aspr1net.Buffer.Moves.{
  IsValid, shrunk, shrink-shrunk, shrunk-IsValid, contents-shrunk, contents-from_start,
  writeable_size-ok, length-contents,
}
use aspr1net.Buffer.{Allocator, Buffer, extend, contents}

-- The state after an `extend` that takes a new block.
abbrev pub grown : Allocator → Buffer → ℕ → Buffer
grown alloc b ext = record (shrunk b) {
  buff = overwrite (alloc.fresh (b.size + ext)) 0 (pad_string b.size (shrunk b).buff);
  size = b.size + ext;
}

module _ (alloc : Allocator) (b : Buffer) (v : IsValid b) (ext : ℕ)
    (small : b.size + ext < size_mod) where
  copied : length (pad_string b.size (shrunk b).buff) ≡ b.size
  copied = length-pad_string b.size (shrunk b).buff

  fits_new : 0 + length (pad_string b.size (shrunk b).buff) ≤ length (alloc.fresh (b.size + ext))
  fits_new = omega (arith, copied, alloc.length-fresh (b.size + ext))

  pub extend-grown : b.size - b.write_idx < ext → extend alloc b ext ≡ ok (grown alloc b ext)
  unfolding extend
  extend-grown h = ground (
    arith,
    small,
    writeable_size-ok b v,
    shrink-shrunk b v,
    strncpy-ok (shrunk b).buff b.size,
    (shrunk-IsValid b v).sized,
    mem_write-ok (alloc.fresh (b.size + ext)) 0 (pad_string b.size (shrunk b).buff) fits_new,
  )

  pub grown-IsValid : IsValid (grown alloc b ext)
  grown-IsValid = record {
    ordered = omega arith;
    within = omega (arith, v.within);
    sized =
        length-overwrite (alloc.fresh (b.size + ext)) 0 (pad_string b.size (shrunk b).buff) fits_new
        ∙ alloc.length-fresh (b.size + ext);
    small = small;
  }

  -- What can be read after the growth is the `strncpy` of what could be read before.
  pub contents-grown :
      contents (grown alloc b ext) ≡ pad_string (b.write_idx - b.read_idx) (contents b)
  contents-grown =
      let w = b.write_idx - b.read_idx in
      let below : w ≤ b.size = omega (arith, v.within) in
      let old = (shrunk b).buff in
      contents-from_start (grown alloc b ext).buff 0 w refl
      ∙ take-append_le w (pad_string b.size old) _ (omega (arith, copied))
      ∙ take-pad_string w b.size old below
      ∙ ap (pad_string w) (sym (contents-from_start old 0 w refl) ∙ contents-shrunk b v)

-- With enough room `extend` does nothing.
pub extend_enough :
    (alloc : Allocator) (b : Buffer) (ext : ℕ)
    → IsValid b
    → ext ≤ b.size - b.write_idx
    → extend alloc b ext ≡ ok b
unfolding extend
extend_enough alloc b ext v h = ground (arith, writeable_size-ok b v)

-- After `extend` of a valid buffer whose readable bytes have no NUL among them, the buffer is valid
-- and has the room asked for, and these bytes are kept, whether or not it had to grow. The new size
-- has to fit into a size_t.
pub extend_lem :
    (alloc : Allocator) (b : Buffer) (ext : ℕ)
    → IsValid b
    → b.size + ext < size_mod
    → c_string (contents b) ≡ contents b
    → (e : Buffer) × (extend alloc b ext ≡ ok e)
      × IsValid e
      × (ext ≤ e.size - e.write_idx)
      × (contents e ≡ contents b)
extend_lem alloc b ext v small text = elim (Bool-cases (ltb (b.size - b.write_idx) ext)) [
  | inl less ↦ (
    grown alloc b ext,
    extend-grown alloc b v ext small (ground arith),
    grown-IsValid alloc b v ext small,
    omega (arith, v.ordered, v.within),
    contents-grown alloc b v ext small
        ∙ ap (λ n. pad_string n (contents b)) (sym (length-contents b v))
        ∙ pad_string-no_nul (contents b) text,
  )
  | inr room ↦
      let h : ext ≤ b.size - b.write_idx = ground arith in
      (b, extend_enough alloc b ext v h, v, h, refl)
]
