-- ===== src/Bracket/Tests.antt =====
-- The theorems on the bracket counters at small texts.
use code_snippet.Prelude.{ℕ, suc, ◌≡◌, refl, none, some, List, [], ◌∷◌, pos, replicate, arith}
use code_snippet.Stack.Lifo.{failure}
use code_snippet.Stack.Seq.{Ptr, push, pop, is_empty, destroy}
use code_snippet.Stack.Seq.Refine.{Holds}
use code_snippet.Stack.Seq.Client
use code_snippet.Bracket.{calculate}
use code_snippet.Bracket.Nesting.{pairs, Returns, calculate-pairs}
use code_snippet.Bracket.Grammar.{Balanced, empty, other, nest}

abbrev fresh : ℕ → Ptr
fresh n = some (record { buf = replicate n (pos 0); top = 0; max = n })

fresh-Holds : Holds 2 (fresh 2) []
fresh-Holds = record { size = refl; storage = omega arith; bound = omega arith; contents = refl }

-- "(a)("
abbrev open_left : List ℕ
open_left = b'(' ∷ b'a' ∷ b')' ∷ b'(' ∷ []

-- "(a())"
abbrev matched : List ℕ
matched = b'(' ∷ b'a' ∷ b'(' ∷ b')' ∷ b')' ∷ []

matched-Balanced : {k : ℕ} → Balanced (suc (suc k)) 2 matched
matched-Balanced = nest (other b'a' refl refl (nest empty empty)) empty

calculate_runs : calculate (Client.api 2) matched (fresh 2) ≡ some (pos 2, none)
unfolding calculate Client.pop_into Client.give_back push pop is_empty destroy
calculate_runs = refl

calculate-pairs_example :
    Returns (Client.api 2) (calculate (Client.api 2) open_left (fresh 2)) failure
unfolding pairs
calculate-pairs_example = calculate-pairs (Client.api 2) open_left (fresh 2) fresh-Holds refl
