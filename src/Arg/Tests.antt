-- ===== src/Arg/Tests.antt =====
-- Runs of both splitters, and the theorems at concrete inputs.
use aspr1net.Base.{codes, [], ◌∷◌, some, none, ◌≡◌, refl, All, ◌++◌}
use aspr1net.Arg.{Arg, split_cstr, process, process_str}
use aspr1net.Arg.Tokens.{IsToken, process-IsToken}
use aspr1net.Arg.RoundTrip.{join, process-join}
use aspr1net.Arg.Overloads.{process_str-process, process_str_diverges}

abbrev no_args : Arg
no_args = record { kind = 0; argv = [] }

split_escapes :
    split_cstr 30 [] (codes "  get a\\ b  c\\\\ d \t x\n")
    ≡ some (codes "get" ∷ codes "a b" ∷ codes "c\\ d" ∷ codes "x" ∷ [])
unfolding split_cstr
split_escapes = refl

-- A NUL ends the C string.
split_nul : split_cstr 9 [] (codes "ab " ++ 0 ∷ codes "cd") ≡ some (codes "ab" ∷ [])
unfolding split_cstr
split_nul = refl

process_ping :
    process no_args (some (codes " ping\n")) ≡ some (record { kind = 0; argv = codes "ping" ∷ [] })
unfolding process
process_ping = refl

process-IsToken_example : All IsToken (codes "ping" ∷ [])
process-IsToken_example = process-IsToken no_args (codes " ping\n") process_ping

process-join_example :
    process no_args (some (join (codes "set" ∷ codes "a b" ∷ codes "\\c" ∷ [])))
    ≡ some (record { kind = 0; argv = codes "set" ∷ codes "a b" ∷ codes "\\c" ∷ [] })
process-join_example =
    process-join no_args (codes "set" ∷ codes "a b" ∷ codes "\\c" ∷ [])
      (((λ e. cc), refl, refl), (((λ e. cc), refl, refl), (((λ e. cc), refl, refl), tt)))

process_str-process_example :
    process_str 6 no_args (codes "get\u{b}a") ≡ process no_args (some (codes "get\u{b}a"))
process_str-process_example = process_str-process no_args (codes "get\u{b}a") refl

process_str_diverges_example : process_str 1000 no_args (codes "get" ++ 0 ∷ []) ≡ none
process_str_diverges_example = process_str_diverges 1000 no_args (codes "get" ++ 0 ∷ []) refl
