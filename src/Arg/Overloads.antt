-- ===== src/Arg/Overloads.antt =====
-- The two overloads of `process` against one another.
use aspr1net.Base.{
  ℕ, zero, suc, Bool, true, false, not, ◌&&◌, List, [], ◌∷◌, ◌++◌, none, some, ◌≡◌, refl, ◌∙◌,
  arith, ◌==◌, if◌then◌else◌, Bytes, length,
}
use aspr1net.Arg.{
  Arg, peek, skip, scan, collect, split_cstr, process, skip_str, scan_str, split_str, process_str,
}

-- No character of the text is NUL.
abbrev pub no_nul : Bytes → Bool
no_nul [] = true
no_nul (c ∷ cs) = not (c == 0) && no_nul cs

scan-scan_str : (sa piece p : Bytes) → scan sa piece p ≡ scan_str sa piece p
unfolding scan scan_str
scan-scan_str sa piece [] = refl
scan-scan_str sa piece (c ∷ []) = refl
scan-scan_str sa piece (c ∷ d ∷ cs) =
    rw (scan-scan_str (sa ++ piece) (d ∷ []) cs, scan-scan_str sa (piece ++ c ∷ []) (d ∷ cs))

skip-skip_str : (p : Bytes) → no_nul p ≡ true → skip p ≡ skip_str p
unfolding skip skip_str
skip-skip_str [] h = refl
skip-skip_str (c ∷ cs) h = ground (arith, skip-skip_str cs)

no_nul-skip_str : (p : Bytes) → no_nul (skip_str p) ≡ no_nul p
unfolding skip_str
no_nul-skip_str [] = refl
no_nul-skip_str (c ∷ cs) = ground (arith, no_nul-skip_str cs)

-- The loops move past no NUL, so what is left to read holds one exactly when the text did.
no_nul-scan_str : (sa piece p : Bytes) → no_nul (scan_str sa piece p).rest ≡ no_nul p
unfolding scan_str
no_nul-scan_str sa piece [] = refl
no_nul-scan_str sa piece (c ∷ []) = ground arith
no_nul-scan_str sa piece (c ∷ d ∷ cs) = ground (
  arith,
  no_nul-scan_str (sa ++ piece) (d ∷ []) cs,
  no_nul-scan_str sa (piece ++ c ∷ []) (d ∷ cs),
)

peek-no_nul : (p : Bytes) → no_nul p ≡ true → peek p ≡ 0 → p ≡ []
peek-no_nul [] h e = refl
peek-no_nul (c ∷ cs) h e = ground arith

abbrev on_end : {A : Type 0} → Bytes → A → A → A
on_end p x y = elim p [ [] ↦ x | c ∷ cs ↦ y ]

peek-on_end :
    {A : Type 0} (p : Bytes) (x y : A)
    → no_nul p ≡ true
    → (if peek p == 0 then x else y) ≡ on_end p x y
peek-on_end [] x y h = refl
peek-on_end (c ∷ cs) x y h = ground arith

split_cstr-split_str :
    (f : ℕ) (args : List Bytes) (p : Bytes)
    → no_nul p ≡ true
    → split_cstr f args p ≡ split_str f args p
unfolding split_cstr split_str
split_cstr-split_str zero args p h = refl
split_cstr-split_str (suc f) args p h =
    let s = scan_str [] [] (skip_str p) in
    let clean = no_nul-skip_str p ∙ h in
    rw (skip-skip_str p h, scan-scan_str [] [] (skip_str p), peek-on_end (skip_str p) _ _ clean)
      (rw (
        split_cstr-split_str f (collect args s) s.rest
          (no_nul-scan_str [] [] (skip_str p) ∙ clean)))

-- On a text with no NUL in it both overloads give the same arguments.
pub process_str-process :
    (a : Arg) (s : Bytes) → no_nul s ≡ true → process_str (suc (length s)) a s ≡ process a (some s)
unfolding process_str process
process_str-process a [] h = refl
process_str-process a (c ∷ cs) h =
    ground (arith, split_cstr-split_str (suc (length (c ∷ cs))) [] (c ∷ cs) h)

split_str_diverges :
    (f : ℕ) (args : List Bytes) (p : Bytes) → no_nul p ≡ false → split_str f args p ≡ none
unfolding split_str
split_str_diverges zero args p h = refl
split_str_diverges (suc f) args p h =
    at_rest (skip_str p) (split_str_diverges f) (no_nul-skip_str p ∙ h)
  where
    at_rest :
        (q : Bytes)
        → ((more : List Bytes) (r : Bytes) → no_nul r ≡ false → split_str f more r ≡ none)
        → no_nul q ≡ false
        → on_end q
            (some args)
            (split_str f (collect args (scan_str [] [] q)) (scan_str [] [] q).rest)
          ≡ none
    at_rest [] later e = cc
    at_rest (c ∷ cs) later e =
        later (collect args (scan_str [] [] (c ∷ cs))) (scan_str [] [] (c ∷ cs)).rest
          (no_nul-scan_str [] [] (c ∷ cs) ∙ e)

-- On a string that holds a NUL the loop of `process(const std::string&)` never ends: no number of
-- rounds is enough.
pub process_str_diverges :
    (f : ℕ) (a : Arg) (s : Bytes) → no_nul s ≡ false → process_str f a s ≡ none
unfolding process_str
process_str_diverges f a [] h = cc
process_str_diverges f a (c ∷ cs) h = ground (arith, split_str_diverges f [] (c ∷ cs) h)
