-- ===== src/Convert/Tests.antt =====
-- "ab+c*d-e" and "(ab)", and the theorems there.
use code_snippet.Prelude.{◌≡◌, refl, some, List, [], ◌∷◌, map, pos, ℤ, negsuc, replicate, arith}
use code_snippet.Stack.Seq.{Ptr, push, pop}
use code_snippet.Stack.Seq.Refine.{Holds}
use code_snippet.Stack.Seq.Client
use code_snippet.Convert.{
  Machine, collect, converted, loop, getop, operate, finish, rank, pop_until, push_char,
}
use code_snippet.Convert.Notation.{Sum}
use code_snippet.Convert.Correct.{loop-converts}

abbrev fresh : Ptr
fresh = some (record { buf = replicate 16 (pos 0); top = 0; max = 16 })

fresh-Holds : Holds 16 fresh []
fresh-Holds = record { size = refl; storage = omega arith; bound = omega arith; contents = refl }

abbrev start : Machine (Client.api 16)
start = record { stack = fresh; ch = negsuc 0; out = [] }

abbrev sample : Sum
sample = record {
  first = record { first = b'a' ∷ b'b' ∷ []; factors = [] };
  terms =
      (b'+', record { first = b'c' ∷ []; factors = (b'*', b'd' ∷ []) ∷ [] })
      ∷ (b'-', record { first = b'e' ∷ []; factors = [] })
      ∷ [];
}

abbrev written : List ℤ
written = map pos (b'a' ∷ b'b' ∷ b'c' ∷ b'd' ∷ b'*' ∷ b'+' ∷ b'e' ∷ b'-' ∷ [])

converts_runs :
    loop (Client.api 16) 9 (b'a' ∷ b'b' ∷ b'+' ∷ b'c' ∷ b'*' ∷ b'd' ∷ b'-' ∷ b'e' ∷ []) start
    ≡ some (converted written)
unfolding loop getop collect operate finish rank pop_until push_char Client.pop_into pop push
converts_runs = refl

loop-converts_example :
    loop (Client.api 16) 9 (b'a' ∷ b'b' ∷ b'+' ∷ b'c' ∷ b'*' ∷ b'd' ∷ b'-' ∷ b'e' ∷ []) start
    ≡ some (converted written)
loop-converts_example =
    loop-converts (Client.api 16) sample 9 start (omega arith)
      (
        ((omega arith, omega arith, (refl, (refl, tt))), tt),
        (
          (
            refl,
            (
              (omega arith, omega arith, (refl, tt)),
              ((refl, (omega arith, omega arith, (refl, tt))), tt),
            ),
          ),
          ((refl, ((omega arith, omega arith, (refl, tt)), tt)), tt),
        ),
      )
      fresh-Holds refl (omega arith)
