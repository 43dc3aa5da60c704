-- ===== src/Convert/Brackets.antt =====
-- What is left in `ch` by a closing bracket makes the converter refuse a text that it has converted.
use code_snippet.Prelude.{
  ℕ, suc, ◌+◌, ◌≡◌, ◌<◌, refl, ap, ◌∙◌, append-nil, some, List, [], ◌∷◌, ◌++◌, map, pos, arith,
}
use code_snippet.Stack.Api.{StackApi}
use code_snippet.Postfix.{skip}
use code_snippet.Convert.{
  next_token, getop, open_bracket, is_open, Machine, operate, failed, finish, loop,
}
use code_snippet.Convert.Steps.{pop_until-eq, push_char-eq}
use code_snippet.Convert.Notation.{Word, IsWord}
use code_snippet.Convert.Correct.{word_turn}

module _ (api : StackApi) where
  open api use {Holds, cap}

  open_turn :
      (fuel : ℕ) (rest : List ℕ) (m : Machine api)
      → Holds m.stack []
      → 0 < cap
      → (n : Machine api) × (loop api (suc fuel) (b'(' ∷ rest) m ≡ loop api fuel rest n)
        × Holds n.stack (open_bracket ∷ [])
        × (n.out ≡ m.out)
  unfolding loop getop skip next_token operate
  open_turn fuel rest m held room =
      let (t, runs, held') = push_char-eq api open_bracket m [] held room in
      (record m { stack = t }, rw runs refl, held', refl)

  close_turn :
      (fuel : ℕ) (m : Machine api)
      → Holds m.stack (open_bracket ∷ [])
      → 0 < cap
      → (n : Machine api) × (loop api (suc fuel) (b')' ∷ []) m ≡ loop api fuel [] n)
        × Holds n.stack []
        × (n.ch ≡ open_bracket)
        × (n.out ≡ m.out)
  unfolding loop getop skip next_token operate
  close_turn fuel m held room =
      let (n, runs, held', ch, out) =
        pop_until-eq api (cap + 1) is_open m (open_bracket ∷ []) held (omega (arith, room)) in
      (n, rw (runs, ap is_open ch) refl, held', ch, out ∙ append-nil m.out)

  end_turn :
      (fuel : ℕ) (m : Machine api)
      → Holds m.stack []
      → m.ch ≡ open_bracket
      → loop api (suc fuel) [] m ≡ some (failed m.out)
  unfolding loop getop skip next_token finish
  end_turn fuel m held stale =
      let (n, runs, held', ch, out) = pop_until-eq api (cap + 1) is_open m [] held (omega arith) in
      rw (runs, ap is_open (ch ∙ stale)) (ap (λ o. some (failed o)) (out ∙ append-nil m.out))

  -- A word in brackets: the loop prints the word, and then ends in an error, since the last pop
  -- fails and leaves the opening bracket in `ch` that the closing one has taken from the stack.
  pub loop-bracketed :
      (w : Word) (fuel : ℕ) (m : Machine api)
      → 0 < cap
      → IsWord w
      → Holds m.stack []
      → loop api (suc (suc (suc (suc fuel)))) (b'(' ∷ (w ++ (b')' ∷ []))) m
        ≡ some (failed (m.out ++ map pos w))
  loop-bracketed w fuel m room plain held =
      let (n, opens, held₁, out₁) =
        open_turn (suc (suc (suc fuel))) (w ++ (b')' ∷ [])) m held room in
      let n₁ : Machine api = record n { out = n.out ++ map pos w } in
      let (n₂, closes, held₂, stale, out₂) = close_turn (suc fuel) n₁ held₁ room in
      opens
      ∙ word_turn api (suc (suc fuel)) w (b')' ∷ []) n plain (refl, omega arith)
      ∙ closes
      ∙ end_turn fuel n₂ held₂ stale
      ∙ ap (λ o. some (failed o)) (out₂ ∙ ap (λ o. o ++ map pos w) out₁)
