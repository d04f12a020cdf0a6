-- ===== src/Arg/Total.antt =====
-- The loops of `process(const char*)` end: each round takes at least one character.
use aspr1net.Base.{
  ℕ, zero, suc, ◌≤◌, ◌<◌, false, List, [], ◌∷◌, ◌++◌, Option, none, some, ◌≡◌, refl, ◌⊎◌, inl, inr,
  arith, Bytes, length,
}
use aspr1net.Arg.{Arg, is_stop, peek, skip, scan, collect, split_cstr, process}

pub length-skip : (p : Bytes) → length (skip p) ≤ length p
unfolding skip
length-skip [] = omega arith
length-skip (c ∷ cs) = ground (arith, length-skip cs)

-- `skip` stops at the end of the text or at a character that is no space.
pub skip-peek : (p : Bytes) → (peek (skip p) ≡ 0) ⊎ (is_stop (peek (skip p)) ≡ false)
unfolding skip
skip-peek [] = inl refl
skip-peek (c ∷ cs) = ground (arith, skip-peek cs)

pub length-scan : (sa piece p : Bytes) → length (scan sa piece p).rest ≤ length p
unfolding scan
length-scan sa piece [] = omega arith
length-scan sa piece (c ∷ []) = ground arith
length-scan sa piece (c ∷ d ∷ cs) =
    ground (arith, length-scan (sa ++ piece) (d ∷ []) cs, length-scan sa (piece ++ c ∷ []) (d ∷ cs))

-- Off a stop the inner loop takes at least one character.
pub scan-lt :
    (sa piece p : Bytes) → is_stop (peek p) ≡ false → length (scan sa piece p).rest < length p
unfolding scan
scan-lt sa piece [] h = cc
scan-lt sa piece (c ∷ []) h = ground arith
scan-lt sa piece (c ∷ d ∷ cs) h =
    ground (arith, length-scan (sa ++ piece) (d ∷ []) cs, length-scan sa (piece ++ c ∷ []) (d ∷ cs))

split_cstr_total :
    (f : ℕ) (args : List Bytes) (p : Bytes)
    → length p < f
    → (r : List Bytes) × (split_cstr f args p ≡ some r)
unfolding split_cstr
split_cstr_total zero args p h = elim h [ ]
split_cstr_total (suc f) args p h = elim (skip-peek p) [
  | inl done ↦ (args, ground arith)
  | inr more ↦
      let s = scan [] [] (skip p) in
      let smaller : length s.rest < f = omega (arith, scan-lt [] [] (skip p) more, length-skip p) in
      let next = split_cstr_total f (collect args s) s.rest smaller in
      (next.0, ground (arith, next.1))
]

-- `process(const char*)` returns for every text, and for a null pointer.
pub process_total : (a : Arg) (s : Option Bytes) → (r : Arg) × (process a s ≡ some r)
unfolding process
process_total a none = (record { kind = 0; argv = [] }, refl)
process_total a (some s) =
    let r = split_cstr_total (suc (length s)) [] s (omega arith) in
    (record { kind = 0; argv = r.0 }, ground (arith, r.1))
