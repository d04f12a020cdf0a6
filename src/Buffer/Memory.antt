-- ===== src/Buffer/Memory.antt =====
-- The C library's moves of bytes that buffer.cpp uses, on a block of memory with an end.
use aspr1net.Base.{
  ℕ, zero, suc, ◌+◌, ◌≤◌, List, [], ◌∷◌, ◌++◌, ◌≡◌, refl, arith, Result, ok, err, out_of_bounds,
  leb, ltb, ◌||◌, ◌==◌, if◌then◌else◌, Bytes, length, take, drop, replicate, length-append,
  length-take, length-drop, length-replicate, take-append, drop-all, ap, append_assoc, append-nil,
  get_elem?, get_elem?-append, some, subst, sym,
}

-- n bytes from offset `from`.
unfoldable pub mem_read : Bytes → ℕ → ℕ → Result Bytes
mem_read m from n =
    if leb (from + n) (length m) then ok (take n (drop from m)) else err out_of_bounds

abbrev pub overwrite : Bytes → ℕ → Bytes → Bytes
overwrite m from bs = take from m ++ (bs ++ drop (from + length bs) m)

-- The bytes `bs` to offset `from`.
unfoldable pub mem_write : Bytes → ℕ → Bytes → Result Bytes
mem_write m from bs =
    if leb (from + length bs) (length m) then ok (overwrite m from bs) else err out_of_bounds

-- The characters of a C string before its NUL.
unfoldable pub c_string : Bytes → Bytes
c_string [] = []
c_string (c ∷ cs) = if c == 0 then [] else c ∷ c_string cs

abbrev pub strlen : Bytes → ℕ
strlen s = length (c_string s)

-- What `strncpy(dst, src, n)` puts into `dst`: n characters, those of the source up to its NUL and
-- then zeros.
unfoldable pub pad_string : ℕ → Bytes → Bytes
pad_string zero src = []
pad_string (suc n) [] = replicate (suc n) 0
pad_string (suc n) (c ∷ cs) = if c == 0 then replicate (suc n) 0 else c ∷ pad_string n cs

-- It reads n cells of the source, or fewer if a NUL stands among them.
unfoldable pub strncpy : Bytes → ℕ → Result Bytes
strncpy src n =
    if leb n (length src) || ltb (strlen src) (length src)
    then ok (pad_string n src)
    else err out_of_bounds

pub mem_write-ok :
    (m : Bytes) (from : ℕ) (bs : Bytes)
    → from + length bs ≤ length m
    → mem_write m from bs ≡ ok (overwrite m from bs)
unfolding mem_write
mem_write-ok m from bs h = ground arith

pub mem_write-err :
    (m : Bytes) (from : ℕ) (bs : Bytes)
    → suc (length m) ≤ from + length bs
    → mem_write m from bs ≡ err out_of_bounds
unfolding mem_write
mem_write-err m from bs h = ground arith

pub length-overwrite :
    (m : Bytes) (from : ℕ) (bs : Bytes)
    → from + length bs ≤ length m
    → length (overwrite m from bs) ≡ length m
length-overwrite m from bs h = omega (
  arith,
  length-append (take from m) (bs ++ drop (from + length bs) m),
  length-append bs (drop (from + length bs) m),
  length-take from m,
  length-drop (from + length bs) m,
)

pub take-take_append {ℓ} :
    {A : Type ℓ} (n from : ℕ) (m ys : List A)
    → n ≤ from
    → from ≤ length m
    → take n (take from m ++ ys) ≡ take n m
take-take_append zero from m ys h k = refl
take-take_append (suc n) zero m ys h k = absurd (omega arith)
take-take_append (suc n) (suc from) [] ys h k = absurd (omega arith)
take-take_append (suc n) (suc from) (x ∷ m) ys h k =
    ap (◌∷◌ x) (take-take_append n from m ys (omega arith) (omega arith))

-- Below the written place the memory is as it was.
pub take-overwrite_below :
    (n : ℕ) (m : Bytes) (from : ℕ) (bs : Bytes)
    → n ≤ from
    → from ≤ length m
    → take n (overwrite m from bs) ≡ take n m
take-overwrite_below n m from bs h k =
    take-take_append n from m (bs ++ drop (from + length bs) m) h k

-- Up to the end of the written place: what stood before it, and the bytes.
pub take-overwrite :
    (m : Bytes) (from : ℕ) (bs : Bytes) (n : ℕ)
    → from + length bs ≤ length m
    → n ≡ from + length bs
    → take n (overwrite m from bs) ≡ take from m ++ bs
take-overwrite m from bs n h e =
    let size : n ≡ length (take from m ++ bs) =
      omega (arith, length-append (take from m) bs, length-take from m) in
    rw (size, ← append_assoc (take from m) bs (drop (from + length bs) m))
      (take-append (take from m ++ bs) (drop (from + length bs) m))

-- All the memory, written over from its start.
pub overwrite_full : (m bs : Bytes) → length bs ≡ length m → overwrite m 0 bs ≡ bs
overwrite_full m bs e = rw (drop-all (0 + length bs) m (omega arith), append-nil bs)

pub length-pad_string : (n : ℕ) (src : Bytes) → length (pad_string n src) ≡ n
unfolding pad_string
length-pad_string zero src = refl
length-pad_string (suc n) [] = ap suc (length-replicate {A = ℕ} n 0)
length-pad_string (suc n) (c ∷ cs) =
    ground (arith, length-replicate {A = ℕ} n 0, length-pad_string n cs)

take-replicate : (k n : ℕ) → k ≤ n → take k (replicate {A = ℕ} n 0) ≡ replicate k 0
take-replicate zero n h = refl
take-replicate (suc k) zero h = absurd (omega arith)
take-replicate (suc k) (suc n) h = ap (◌∷◌ 0) (take-replicate k n (omega arith))

-- The first k cells of the copy are the copy of the first k cells.
pub take-pad_string :
    (k n : ℕ) (src : Bytes) → k ≤ n → take k (pad_string n src) ≡ pad_string k (take k src)
unfolding pad_string
take-pad_string zero n src h = refl
take-pad_string (suc k) zero src h = absurd (omega arith)
take-pad_string (suc k) (suc n) [] h = ap (◌∷◌ 0) (take-replicate k n (omega arith))
take-pad_string (suc k) (suc n) (c ∷ cs) h =
    ground (arith, take-replicate k n, take-pad_string k n cs)

-- A text with no NUL is copied whole.
pub pad_string-no_nul : (src : Bytes) → c_string src ≡ src → pad_string (length src) src ≡ src
unfolding pad_string c_string
pad_string-no_nul [] h = refl
pad_string-no_nul (c ∷ cs) h = ground (arith, pad_string-no_nul cs)

pub strncpy-ok : (src : Bytes) (n : ℕ) → n ≤ length src → strncpy src n ≡ ok (pad_string n src)
unfolding strncpy
strncpy-ok src n h = ground arith

pub mem_read-ok :
    (m : Bytes) (from n : ℕ) → from + n ≤ length m → mem_read m from n ≡ ok (take n (drop from m))
unfolding mem_read
mem_read-ok m from n h = ground arith

pub get_elem?-overwrite :
    (m : Bytes) (n x : ℕ) → n + 1 ≤ length m → get_elem? (overwrite m n (x ∷ [])) n ≡ some x
get_elem?-overwrite m n x h =
    let at_end : n ≡ length (take n m) = omega (arith, length-take n m) in
    subst (λ k. get_elem? (overwrite m n (x ∷ [])) k ≡ some x) (sym at_end)
      (get_elem?-append (take n m) (drop (n + 1) m) x)
