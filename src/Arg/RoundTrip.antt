-- ===== src/Arg/RoundTrip.antt =====
-- Quoting a list of arguments and splitting the line gives the list back.
use aspr1net.Base.{
  ℕ, zero, suc, ◌<◌, ◌≤◌, Bool, true, false, not, ◌&&◌, ◌||◌, List, [], ◌∷◌, ◌++◌, some, ◌≡◌, refl,
  ◌∙◌, ◌≢◌, ap, arith, ◌==◌, if◌then◌else◌, Bytes, length, All, inl, inr, append_assoc, append-nil,
  Bool-cases, length-append, ==_iff,
}
use aspr1net.Arg.{Arg, Scan, is_stop, peek, skip, scan, argument, collect, split_cstr, process}

-- Each space of an argument gets a backslash in front.
abbrev pub escape : Bytes → Bytes
escape [] = []
escape (c ∷ cs) = if c == b' ' then b'\\' ∷ b' ' ∷ escape cs else c ∷ escape cs

-- A line with the arguments in order, each followed by a space.
abbrev pub join : List Bytes → Bytes
join [] = []
join (a ∷ rest) = escape a ++ b' ' ∷ join rest

-- No tab, line feed, carriage return or NUL in it, and its last character is no backslash.
abbrev pub is_plain : Bytes → Bool
is_plain [] = true
is_plain (c ∷ []) = (not (is_stop c) || c == b' ') && not (c == b'\\')
is_plain (c ∷ d ∷ cs) = (not (is_stop c) || c == b' ') && is_plain (d ∷ cs)

-- What can be quoted: not empty, plain, and the first character no vertical tab and no form feed,
-- which the source skips in front of an argument.
abbrev pub IsQuotable : Bytes → Type 0
IsQuotable a = (a ≢ []) × (is_plain a ≡ true) × ((peek a == 11 || peek a == 12) ≡ false)

scan-cons :
    (sa piece : Bytes) (c : ℕ) (q : Bytes)
    → is_stop c ≡ false
    → (c == b'\\' && peek q == b' ') ≡ false
    → scan sa piece (c ∷ q) ≡ scan sa (piece ++ c ∷ []) q
unfolding scan
scan-cons sa piece c [] h k = ground arith
scan-cons sa piece c (d ∷ q) h k = ground arith

scan-space :
    (sa piece q : Bytes)
    → scan sa piece (b' ' ∷ q) ≡ record { space_arg = sa; piece = piece; rest = b' ' ∷ q }
unfolding scan
scan-space sa piece [] = refl
scan-space sa piece (c ∷ q) = refl

-- The quoted form of an argument never begins with a space, if it goes on.
peek-escape : (c : ℕ) (cs r : Bytes) → (peek (escape (c ∷ cs) ++ r) == b' ') ≡ false
peek-escape c cs r = ground arith

abbrev Reads : Bytes → Bytes → Scan → Type 0
Reads text rest s = (s.space_arg ++ s.piece ≡ text) × (s.rest ≡ rest)

scan-escape_step :
    (c : ℕ) (cs sa piece r : Bytes)
    → (not (is_stop c) || c == b' ') ≡ true
    → (c == b'\\' && peek (escape cs ++ b' ' ∷ r) == b' ') ≡ false
    → scan sa piece (escape (c ∷ cs) ++ b' ' ∷ r) ≡ (
        if c == b' '
        then scan (sa ++ piece) (b' ' ∷ []) (escape cs ++ b' ' ∷ r)
        else scan sa (piece ++ c ∷ []) (escape cs ++ b' ' ∷ r))
scan-escape_step c cs sa piece r h k = elim (Bool-cases (c == b' ')) [
  | inl space ↦ rw space (unfold scan in refl)
  | inr other ↦ rw other (scan-cons sa piece c (escape cs ++ b' ' ∷ r) (ground arith) k)
]

-- The last character of a plain text is no backslash, and no other character stands before a space.
plain-next :
    (c : ℕ) (cs r : Bytes)
    → is_plain (c ∷ cs) ≡ true
    → (c == b'\\' && peek (escape cs ++ b' ' ∷ r) == b' ') ≡ false
plain-next c [] r h = ground arith
plain-next c (d ∷ cs) r h = ground (arith, peek-escape d cs r)

plain-head : (c : ℕ) (cs : Bytes) → is_plain (c ∷ cs) ≡ true → (not (is_stop c) || c == b' ') ≡ true
plain-head c [] h = ground arith
plain-head c (d ∷ cs) h = ground arith

plain-tail : (c : ℕ) (cs : Bytes) → is_plain (c ∷ cs) ≡ true → is_plain cs ≡ true
plain-tail c [] h = refl
plain-tail c (d ∷ cs) h = ground arith

scan-escape :
    (a sa piece r : Bytes)
    → is_plain a ≡ true
    → Reads (sa ++ (piece ++ a)) (b' ' ∷ r) (scan sa piece (escape a ++ b' ' ∷ r))
scan-escape [] sa piece r h = rw (append-nil piece, scan-space sa piece r) (refl, refl)
scan-escape (c ∷ cs) sa piece r h =
    rw (scan-escape_step c cs sa piece r (plain-head c cs h) (plain-next c cs r h))
      (elim (Bool-cases (c == b' ')) [
        | inl space ↦
            rw (space, (==_iff c b' ').0 space)
              (rw append_assoc at (scan-escape cs (sa ++ piece) (b' ' ∷ []) r (plain-tail c cs h)))
        | inr other ↦
            rw other
              (rw append_assoc at (scan-escape cs sa (piece ++ c ∷ []) r (plain-tail c cs h)))
      ])

argument-append : (sa piece : Bytes) → argument sa piece ≡ sa ++ piece
argument-append [] piece = refl
argument-append (x ∷ sa) piece = refl

collect-escape :
    (args : List Bytes) (a r : Bytes)
    → is_plain a ≡ true
    → collect args (scan [] [] (escape a ++ b' ' ∷ r)) ≡ args ++ a ∷ []
collect-escape args a r h =
    rw (argument-append (scan [] [] (escape a ++ b' ' ∷ r)).space_arg _)
      (rw ((scan-escape a [] [] r h).0) refl)

-- A line of quoted arguments begins with no space.
skip-join : (rest : List Bytes) → All IsQuotable rest → skip (join rest) ≡ join rest
unfolding skip
skip-join [] h = refl
skip-join ([] ∷ rest) h = absurd (h.0.0 refl)
skip-join ((c ∷ cs) ∷ rest) h = ground (arith, plain-head c cs)

peek-join : (a : Bytes) (r : Bytes) → IsQuotable a → (peek (escape a ++ r) == 0) ≡ false
peek-join [] r h = absurd (h.0 refl)
peek-join (c ∷ cs) r h = ground (arith, plain-head c cs)

skip_space : (q : Bytes) → skip (b' ' ∷ q) ≡ skip q
unfolding skip
skip_space q = refl

split_cstr-join :
    (f : ℕ) (args rest : List Bytes) (p : Bytes)
    → All IsQuotable rest
    → length rest < f
    → skip p ≡ join rest
    → split_cstr f args p ≡ some (args ++ rest)
unfolding split_cstr
split_cstr-join zero args rest p q h e = elim h [ ]
split_cstr-join (suc f) args [] p q h e = rw (e, append-nil args) refl
split_cstr-join (suc f) args (a ∷ rest) p (q, qs) h e =
    let left = (scan-escape a [] [] (join rest) q.1).1 in
    let skipped = skip_space (join rest) ∙ skip-join rest qs in
    rw (e, peek-join a (b' ' ∷ join rest) q, collect-escape args a (join rest) q.1, left)
      (split_cstr-join f (args ++ a ∷ []) rest (b' ' ∷ join rest) qs (omega arith) skipped
        ∙ ap some (append_assoc args (a ∷ []) rest))

length-join : (rest : List Bytes) → length rest ≤ length (join rest)
length-join [] = omega arith
length-join (a ∷ rest) =
    omega (arith, length-join rest, length-append (escape a) (b' ' ∷ join rest))

-- Quotable arguments, each with its spaces escaped and followed by a space, are read back as they
-- were.
pub process-join :
    (x : Arg) (rest : List Bytes)
    → All IsQuotable rest
    → process x (some (join rest)) ≡ some (record { kind = 0; argv = rest })
unfolding process
process-join x rest h = ground (
  arith,
  split_cstr-join (suc (length (join rest))) [] rest (join rest) h (omega (arith, length-join rest))
      (skip-join rest h),
)
