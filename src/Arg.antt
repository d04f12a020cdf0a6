-- ===== src/Arg.antt =====
-- arguments.hpp: `arg_t`, the splitter of a command line into its arguments.
-- A pointer into the text is what is left to read from it. A C string ends at its NUL: reading at
-- the end of the list gives 0.
pub mod Total
pub mod Tokens
pub mod RoundTrip
pub mod Overloads
mod Tests
use aspr1net.Base.{
  ℕ, zero, suc, Bool, not, ◌&&◌, ◌||◌, List, [], ◌∷◌, ◌++◌, Option, none, some, ◌==◌, leb,
  if◌then◌else◌, Bytes, length, get_elem?,
}

pub record Arg : Type 0 where
  pub kind : ℕ
  pub argv : List Bytes

-- `reset`: no arguments, and type 0.
unfoldable pub reset : Arg → Arg
reset a = record { kind = 0; argv = [] }

abbrev pub argc : Arg → ℕ
argc a = length a.argv

-- `argv(i)`; none is the read past the end of the vector.
abbrev pub argv : Arg → ℕ → Option Bytes
argv a = get_elem? a.argv

-- `isspace` of the C locale.
abbrev pub is_space : ℕ → Bool
is_space c = c == b' ' || (leb 9 c && leb c 13)

-- `*_p`.
abbrev pub peek : Bytes → ℕ
peek [] = 0
peek (c ∷ cs) = c

-- The characters at which the inner loop of either splitter is done.
abbrev pub is_stop : ℕ → Bool
is_stop c = c == b' ' || c == 10 || c == 13 || c == 9 || c == 0

-- What the inner loop has when it is done: `_space_arg`, the text from `_top` to `_p`, and `_p`.
pub record Scan : Type 0 where
  pub space_arg : Bytes
  pub piece : Bytes
  pub rest : Bytes

-- `while (*_p && isspace(*_p)) ++_p;`
unfoldable pub skip : Bytes → Bytes
skip [] = []
skip (c ∷ cs) = if not (c == 0) && is_space c then skip cs else c ∷ cs

-- `while (!_done) switch (*_p)`: a backslash before a space closes the piece, and the space opens
-- the next one; any other character goes into the piece.
unfoldable pub scan : Bytes → Bytes → Bytes → Scan
scan sa piece [] = record { space_arg = sa; piece = piece; rest = [] }
scan sa piece (c ∷ []) =
    if is_stop c
    then record { space_arg = sa; piece = piece; rest = c ∷ [] }
    else record { space_arg = sa; piece = piece ++ c ∷ []; rest = [] }
scan sa piece (c ∷ d ∷ cs) =
    let escaped = scan (sa ++ piece) (d ∷ []) cs in
    let plain = scan sa (piece ++ c ∷ []) (d ∷ cs) in
    if is_stop c
    then record { space_arg = sa; piece = piece; rest = c ∷ d ∷ cs }
    else if c == b'\\' && d == b' '
    then escaped
    else plain

-- `_argv.emplace_back(_top, _p)`, or `_argv.push_back(_space_arg + std::string(_top, _p))`.
abbrev pub argument : Bytes → Bytes → Bytes
argument [] piece = piece
argument (x ∷ sa) piece = (x ∷ sa) ++ piece

abbrev pub collect : List Bytes → Scan → List Bytes
collect args s = args ++ argument s.space_arg s.piece ∷ []

-- The outer loop of `process(const char*)`; none is the end of the fuel.
unfoldable pub split_cstr : ℕ → List Bytes → Bytes → Option (List Bytes)
unfolding skip scan
split_cstr zero args p = none
split_cstr (suc f) args p =
    let s = scan [] [] (skip p) in
    let next = split_cstr f (collect args s) s.rest in
    if peek (skip p) == 0 then some args else next

-- `process(const char*)`; a null pointer leaves no arguments. One round more than the text has
-- characters is enough fuel.
unfoldable pub process : Arg → Option Bytes → Option Arg
unfolding reset split_cstr
process a none = some (reset a)
process a (some s) = elim (split_cstr (suc (length s)) (reset a).argv s) [
  | none ↦ none
  | some args ↦ some (record (reset a) { argv = args })
]

-- `process(const std::string&)` goes up to the end of the string, not to a NUL.
unfoldable pub skip_str : Bytes → Bytes
skip_str [] = []
skip_str (c ∷ cs) = if is_space c then skip_str cs else c ∷ cs

unfoldable pub scan_str : Bytes → Bytes → Bytes → Scan
scan_str sa piece [] = record { space_arg = sa; piece = piece; rest = [] }
scan_str sa piece (c ∷ []) =
    if is_stop c
    then record { space_arg = sa; piece = piece; rest = c ∷ [] }
    else record { space_arg = sa; piece = piece ++ c ∷ []; rest = [] }
scan_str sa piece (c ∷ d ∷ cs) =
    let escaped = scan_str (sa ++ piece) (d ∷ []) cs in
    let plain = scan_str sa (piece ++ c ∷ []) (d ∷ cs) in
    if is_stop c
    then record { space_arg = sa; piece = piece; rest = c ∷ d ∷ cs }
    else if c == b'\\' && d == b' '
    then escaped
    else plain

unfoldable pub split_str : ℕ → List Bytes → Bytes → Option (List Bytes)
unfolding skip_str scan_str
split_str zero args p = none
split_str (suc f) args p =
    let s = scan_str [] [] (skip_str p) in
    let next = split_str f (collect args s) s.rest in
    elim (skip_str p) [ [] ↦ some args | c ∷ cs ↦ next ]

-- `process(const std::string&)` on `f` rounds of fuel.
unfoldable pub process_str : ℕ → Arg → Bytes → Option Arg
unfolding reset split_str
process_str f a [] = some (reset a)
process_str f a (c ∷ cs) = elim (split_str f (reset a).argv (c ∷ cs)) [
  | none ↦ none
  | some args ↦ some (record (reset a) { argv = args })
]
