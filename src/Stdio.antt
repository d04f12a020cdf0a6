-- ===== src/Stdio.antt =====
-- The files of the C library: a parameter, with what the standard says of a stream that is read or
-- written from its start.
use aspr1net.Base.{ℕ, Bool, false, ◌||◌, ◌++◌, [], Option, some, ◌≡◌, Bytes, length, ltb}
use Prim.Native.Nat.{min}

pub record Files (F : Type 0) : Type 0 where
  -- fopen with "r" and with "w+"; none is a null pointer.
  pub fopen_read : Bytes → F → F × Option ℕ
  pub fopen_write : Bytes → F → F × Option ℕ
  pub feof : ℕ → F → Bool
  -- At most so many bytes.
  pub fread : ℕ → ℕ → F → F × Bytes
  pub fwrite : ℕ → Bytes → F → F
  pub fclose : ℕ → F → F
  -- What a file holds, what is left to read of a stream, and what was written to one.
  pub content : F → Bytes → Bytes
  pub unread : F → ℕ → Bytes
  pub written : F → ℕ → Bytes

pub record FileLaws {F : Type 0} (fs : Files F) : Type 0 where
  pub fopen_read_start :
      (name : Bytes) (f : F) {f' : F} {h : ℕ}
      → fs.fopen_read name f ≡ (f', some h)
      → (fs.unread f' h ≡ fs.content f name) × (fs.feof h f' ≡ false)
  pub fread_takes :
      (h n : ℕ) (f : F) → fs.unread f h ≡ (fs.fread h n f).1 ++ fs.unread (fs.fread h n f).0 h
  pub fread_full : (h n : ℕ) (f : F) → length (fs.fread h n f).1 ≡ min n (length (fs.unread f h))
  pub fread_end :
      (h n : ℕ) (f : F)
      → fs.feof h (fs.fread h n f).0 ≡ (fs.feof h f || ltb (length (fs.fread h n f).1) n)
  pub fopen_write_start :
      (name : Bytes) (f : F) {f' : F} {h : ℕ}
      → fs.fopen_write name f ≡ (f', some h)
      → fs.written f' h ≡ []
  pub fwrite_adds :
      (h : ℕ) (bs : Bytes) (f : F) → fs.written (fs.fwrite h bs f) h ≡ fs.written f h ++ bs
