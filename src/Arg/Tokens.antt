-- ===== src/Arg/Tokens.antt =====
-- The shape of what `process(const char*)` puts into the vector.
use aspr1net.Base.{
  ℕ, zero, suc, Bool, true, false, not, ◌&&◌, ◌||◌, List, [], ◌∷◌, ◌++◌, some, ◌≡◌, refl, ◌≢◌,
  arith, ◌==◌, Bytes, length, All, inl, inr,
}
use aspr1net.Arg.{Arg, Scan, is_stop, peek, skip, scan, argument, collect, split_cstr, process}
use aspr1net.Arg.Total.{skip-peek}

-- No character of the text is a tab, a line feed, a carriage return or NUL.
abbrev pub is_clean : Bytes → Bool
is_clean [] = true
is_clean (c ∷ cs) = (not (is_stop c) || c == b' ') && is_clean cs

abbrev pub IsToken : Bytes → Type 0
IsToken t = (t ≢ []) × (is_clean t ≡ true)

is_clean-append :
    (xs ys : Bytes) → is_clean xs ≡ true → is_clean ys ≡ true → is_clean (xs ++ ys) ≡ true
is_clean-append [] ys h k = k
is_clean-append (x ∷ xs) ys h k = ground (arith, is_clean-append xs ys)

abbrev CleanScan : Scan → Type 0
CleanScan s = (is_clean s.space_arg ≡ true) × (is_clean s.piece ≡ true)

scan-CleanScan :
    (sa piece p : Bytes) → is_clean sa ≡ true → is_clean piece ≡ true → CleanScan (scan sa piece p)
unfolding scan
scan-CleanScan sa piece [] h k = (h, k)
scan-CleanScan sa piece (c ∷ []) h k = ground (arith, is_clean-append piece (c ∷ []))
scan-CleanScan sa piece (c ∷ d ∷ cs) h k = ground (
  arith,
  is_clean-append piece (c ∷ []),
  is_clean-append sa piece,
  scan-CleanScan (sa ++ piece) (d ∷ []) cs,
  scan-CleanScan sa (piece ++ c ∷ []) (d ∷ cs),
)

concat-nonempty : (xs : Bytes) (c : ℕ) → xs ++ c ∷ [] ≢ []
concat-nonempty [] c e = cc
concat-nonempty (x ∷ xs) c e = cc

scan-piece : (sa piece p : Bytes) → piece ≢ [] → (scan sa piece p).piece ≢ []
unfolding scan
scan-piece sa piece [] h = h
scan-piece sa piece (c ∷ []) h = ground (arith, concat-nonempty piece c)
scan-piece sa piece (c ∷ d ∷ cs) h = ground (
  arith,
  concat-nonempty piece c,
  scan-piece (sa ++ piece) (d ∷ []) cs,
  scan-piece sa (piece ++ c ∷ []) (d ∷ cs),
)

-- Off a stop the first character goes into the argument.
scan-piece_off_stop : (p : Bytes) → is_stop (peek p) ≡ false → (scan [] [] p).piece ≢ []
unfolding scan
scan-piece_off_stop [] h = cc
scan-piece_off_stop (c ∷ []) h = ground arith
scan-piece_off_stop (c ∷ d ∷ cs) h =
    ground (arith, scan-piece [] (d ∷ []) cs, scan-piece [] (c ∷ []) (d ∷ cs))

argument-IsToken :
    (sa piece : Bytes)
    → is_clean sa ≡ true
    → is_clean piece ≡ true
    → piece ≢ []
    → IsToken (argument sa piece)
argument-IsToken [] piece h k ne = (ne, k)
argument-IsToken (x ∷ sa) piece h k ne = ((λ e. cc), is_clean-append (x ∷ sa) piece h k)

All-concat {ℓ κ} :
    {A : Type ℓ} (P : A → Type κ) (xs : List A) (y : A) → All P xs → P y → All P (xs ++ y ∷ [])
All-concat P [] y h k = (k, tt)
All-concat P (x ∷ xs) y h k = (h.0, All-concat P xs y h.1 k)

split_cstr-IsToken :
    (f : ℕ) (args : List Bytes) (p : Bytes) {r : List Bytes}
    → All IsToken args
    → split_cstr f args p ≡ some r
    → All IsToken r
unfolding split_cstr
split_cstr-IsToken zero args p h e = cc
split_cstr-IsToken (suc f) args p {r} h e = elim (skip-peek p) [
  | inl done ↦ let same : args ≡ r = ground arith in rw (← same) h
  | inr more ↦
      let s = scan [] [] (skip p) in
      let clean = scan-CleanScan [] [] (skip p) refl refl in
      let token =
        argument-IsToken s.space_arg s.piece clean.0 clean.1 (scan-piece_off_stop (skip p) more) in
      split_cstr-IsToken f (collect args s) s.rest (All-concat IsToken args _ h token)
        (ground arith)
]

-- Every argument that `process(const char*)` stores is non-empty and holds no tab, line feed,
-- carriage return or NUL, whatever the text.
pub process-IsToken :
    (a : Arg) (s : Bytes) {r : Arg} → process a (some s) ≡ some r → All IsToken r.argv
unfolding process
process-IsToken a s {r} e =
    let loop : split_cstr (suc (length s)) [] s ≡ some r.argv = ground arith in
    split_cstr-IsToken (suc (length s)) [] s tt loop
