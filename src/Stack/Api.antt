-- ===== src/Stack/Api.antt =====
-- The stack as its clients see it: the calls of seqstack.h and linkstack.h on a state that holds a
-- list, each with the behaviour of `Lifo`. A call is `none` if the C call is undefined.
use code_snippet.Prelude.{ℕ, ◌≡◌, Bool, Option, some, List, ℤ}
use code_snippet.Stack.Lifo

pub record StackApi : Type 1 where
  pub State : Type 0
  pub Holds : State → List ℤ → Type 0
  pub cap : ℕ
  pub push : State → ℤ → Option (ℤ × State)
  pub pop : State → ℤ → Option (ℤ × ℤ × State)
  pub is_empty : State → Option Bool
  pub destroy : State → Option (ℤ × State)
  -- The memory of the stack has been given back.
  pub Freed : State → Type 0
  pub push_law :
      (s : State) (xs : List ℤ) (v : ℤ)
      → Holds s xs
      → (t : State) × (push s v ≡ some ((Lifo.push cap xs v).0, t)) × Holds t (Lifo.push cap xs v).1
  pub pop_law :
      (s : State) (xs : List ℤ) (old : ℤ)
      → Holds s xs
      → (t : State) × (pop s old ≡ some ((Lifo.pop xs old).0, (Lifo.pop xs old).1, t))
        × Holds t (Lifo.pop xs old).2
  pub is_empty_law : (s : State) (xs : List ℤ) → Holds s xs → is_empty s ≡ some (Lifo.is_empty xs)
  pub destroy_law :
      (s : State) (xs : List ℤ)
      → Holds s xs
      → (t : State) × (destroy s ≡ some (Lifo.success, t)) × Freed t
