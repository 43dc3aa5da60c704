-- ===== src/Stack/Steps.antt =====
-- The laws of a stack's calls, case by case.
use code_snippet.Prelude.{◌<◌, ◌≡◌, some, List, [], ◌∷◌, ℤ, ◌==◌, arith, length, true, false}
use code_snippet.Stack.Lifo.{success, failure}
use code_snippet.Stack.Api.{StackApi}

module _ (api : StackApi) where
  open api use {State, Holds, cap, push, pop, push_law, pop_law}

  pub push_room :
      (s : State) (xs : List ℤ) (v : ℤ)
      → Holds s xs
      → length xs < cap
      → (t : State) × (push s v ≡ some (success, t)) × Holds t (v ∷ xs)
  push_room s xs v held room =
      let e : (length xs == cap) ≡ false = ground arith in rw e at (push_law s xs v held)

  pub push_full :
      (s : State) (xs : List ℤ) (v : ℤ)
      → Holds s xs
      → length xs ≡ cap
      → (t : State) × (push s v ≡ some (failure, t)) × Holds t xs
  push_full s xs v held full =
      let e : (length xs == cap) ≡ true = ground arith in rw e at (push_law s xs v held)

  pub pop_cons :
      (s : State) (x : ℤ) (xs : List ℤ) (old : ℤ)
      → Holds s (x ∷ xs)
      → (t : State) × (pop s old ≡ some (success, x, t)) × Holds t xs
  pop_cons s x xs old held = pop_law s (x ∷ xs) old held

  pub pop_nil :
      (s : State) (old : ℤ)
      → Holds s []
      → (t : State) × (pop s old ≡ some (failure, old, t)) × Holds t []
  pop_nil s old held = pop_law s [] old held
