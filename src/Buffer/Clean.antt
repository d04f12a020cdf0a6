-- ===== src/Buffer/Clean.antt =====
-- No operation on a buffer goes through a pointer to what was deleted.
use aspr1net.Base.{
  ℕ, ◌+◌, [], ◌∷◌, Bytes, length, Clean, bind-Sure, if-Sure, fails, gives, le_bytes,
}
use aspr1net.Buffer.Memory.{mem_read, mem_write, strncpy, strlen, c_string}
use aspr1net.Buffer.{
  Allocator, Buffer, head_bytes, package_buff, readable_size, writeable_size, shrink, end_package,
  grow, extend, begin_package, write_str, write_int,
}

pub mem_read-Clean : (m : Bytes) (from n : ℕ) → Clean (mem_read m from n)
unfolding mem_read
mem_read-Clean m from n = if-Sure _ (gives tt) (fails tt)

pub mem_write-Clean : (m : Bytes) (from : ℕ) (bs : Bytes) → Clean (mem_write m from bs)
unfolding mem_write
mem_write-Clean m from bs = if-Sure _ (gives tt) (fails tt)

strncpy-Clean : (m : Bytes) (n : ℕ) → Clean (strncpy m n)
unfolding strncpy
strncpy-Clean m n = if-Sure _ (gives tt) (fails tt)

pub readable_size-Clean : (b : Buffer) → Clean (readable_size b)
unfolding readable_size
readable_size-Clean b = if-Sure _ (gives tt) (fails tt)

writeable_size-Clean : (b : Buffer) → Clean (writeable_size b)
unfolding writeable_size
writeable_size-Clean b = if-Sure _ (gives tt) (fails tt)

shrink-Clean : (b : Buffer) → Clean (shrink b)
unfolding shrink
shrink-Clean b = bind-Sure (readable_size-Clean b) (λ len h.
    bind-Sure (mem_read-Clean b.buff b.read_idx len)
      (λ moved h. bind-Sure (mem_write-Clean b.buff 0 moved) (λ buff h. gives tt)))

end_package-Clean :
    (b : Buffer) (at_idx : ℕ) (payload : Bytes) → Clean (end_package b at_idx payload)
unfolding end_package
end_package-Clean b at_idx payload = bind-Sure (mem_write-Clean b.buff at_idx payload) (λ filled h.
    bind-Sure (mem_write-Clean filled (b.write_idx + length payload) (0 ∷ []))
      (λ ended h. gives tt))

module _ (alloc : Allocator) where
  grow-Clean : (b : Buffer) (n : ℕ) → Clean (grow alloc b n)
  grow-Clean b n =
      bind-Sure (strncpy-Clean b.buff b.size)
        (λ copied h. bind-Sure (mem_write-Clean (alloc.fresh n) 0 copied) (λ buff h. gives tt))

  extend-Clean : (b : Buffer) (n : ℕ) → Clean (extend alloc b n)
  unfolding extend
  extend-Clean b n =
      bind-Sure (writeable_size-Clean b)
        (λ room h. if-Sure _ (bind-Sure (shrink-Clean b) (λ s h. grow-Clean s _)) (gives tt))

  begin_package-Clean : (b : Buffer) (len : ℕ) → Clean (begin_package alloc b len)
  unfolding begin_package
  begin_package-Clean b len = bind-Sure (mem_write-Clean _ 0 (head_bytes len)) (λ headed h.
      bind-Sure (writeable_size-Clean _) (λ room h. if-Sure _ (extend-Clean _ _) (gives tt)))

  pub write_str-Clean : (b : Buffer) (text : Bytes) → Clean (write_str alloc b text)
  unfolding write_str
  write_str-Clean b text =
      bind-Sure (begin_package-Clean b (strlen text))
        (λ ready h. end_package-Clean ready ready.write_idx (c_string text))

  pub write_int-Clean : (b : Buffer) (n : ℕ) → Clean (write_int alloc b n)
  unfolding write_int
  write_int-Clean b n =
      bind-Sure (begin_package-Clean b 8)
        (λ ready h. end_package-Clean ready package_buff (le_bytes 8 n))
