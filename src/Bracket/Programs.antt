-- ===== src/Bracket/Programs.antt =====
-- The two programs that count brackets, from the creation of their stack on.
use code_snippet.Prelude.{
  ℕ, ◌≡◌, refl, Bool, true, false, Option, none, some, List, [], ℤ, pos, length, All, ◌==◌, ◌∷◌,
}
use code_snippet.Stack.Api.{StackApi}
use code_snippet.Stack.Seq
use code_snippet.Stack.Seq.{Ptr}
use code_snippet.Stack.Seq.Client
use code_snippet.Stack.Fixed
use code_snippet.Stack.Fixed.{stack_size, init-Holds}
use code_snippet.Stack.Lifo.{failure}
use code_snippet.Bracket.{open_bracket, close_bracket, scan, calculate}
use code_snippet.Bracket.Nesting.{Returns}
use code_snippet.Bracket.Grammar.{Balanced, calculate-Balanced}

-- `caculate` of algorithm/stack/app/bracketMatch.c.
unfoldable pub count_app :
    (allocated : Bool) → (calloc : ℕ → Option (List ℤ)) → List ℕ → Option (ℤ × Ptr)
count_app allocated calloc text = calculate (Client.api 16) text (Seq.init allocated calloc 16)

-- `caculate` of exam/haier/bracketMatch.c.
unfoldable pub count_haier : (allocated : Bool) → (buf : List ℤ) → List ℕ → Option (ℤ × Ptr)
count_haier allocated buf text = calculate Fixed.api text (Fixed.init allocated buf)

-- The program of exam/haier, when its `malloc` succeeds, returns the number of pairs of a text with
-- matched brackets that are nested at most 16 deep.
pub count_haier-Balanced :
    (buf : List ℤ) (n : ℕ) (text : List ℕ)
    → length buf ≡ stack_size
    → Balanced 16 n text
    → Returns Fixed.api (count_haier true buf text) (pos n)
unfolding count_haier
count_haier-Balanced buf n text size balanced =
    calculate-Balanced Fixed.api n text (Fixed.init true buf) (init-Holds buf size) balanced

-- No character is a bracket.
abbrev pub IsPlainText : List ℕ → Type 0
IsPlainText text = All (λ c. ((c == open_bracket) ≡ false) × ((c == close_bracket) ≡ false)) text

scan-plain :
    (api : StackApi) (text : List ℕ) (count : ℕ) (s : api.State)
    → IsPlainText text
    → scan api text count s ≡ some (some count, s)
unfolding scan
scan-plain api [] count s plain = refl
scan-plain api (c ∷ text) count s plain =
    rw (plain.0.0, plain.0.1) (scan-plain api text count s plain.1)

-- Neither program looks at the pointer that the creation of its stack returns. Without memory, a
-- text without brackets makes the one read through the null pointer, and the other return -1.
pub without_memory :
    (calloc : ℕ → Option (List ℤ)) (buf : List ℤ) (text : List ℕ)
    → IsPlainText text
    → (count_app false calloc text ≡ none) × (count_haier false buf text ≡ some (failure, none))
unfolding count_app count_haier calculate Seq.init Fixed.init Seq.is_empty Fixed.is_empty
without_memory calloc buf text plain = (
  rw (scan-plain (Client.api 16) text 0 none plain),
  rw (scan-plain Fixed.api text 0 none plain)
      (unfold Fixed.len Fixed.destroy Fixed.give_back in refl),
)
