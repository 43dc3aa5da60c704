-- ===== src/Stack/Tests.antt =====
-- The theorems on seqstack.c at a stack of three, and runs of its calls.
use code_snippet.Prelude.{ℕ, ◌≡◌, refl, Option, none, some, List, [], ◌∷◌, ℤ, pos, replicate, arith}
use code_snippet.Stack.Lifo.{success, failure}
use code_snippet.Stack.Seq.{Stack, Ptr, push, pop}
use code_snippet.Stack.Seq.Refine.{Holds, push_refines, pop_refines}

abbrev two : Stack
two = record { buf = pos 7 ∷ pos 8 ∷ pos 0 ∷ []; top = 2; max = 3 }

abbrev two_items : List ℤ
two_items = pos 8 ∷ pos 7 ∷ []

two-Holds : Holds 3 (some two) two_items
two-Holds = record { size = refl; storage = omega arith; bound = omega arith; contents = refl }

push_runs :
    push (some two) (pos 9)
    ≡ some (success, some (record { buf = pos 7 ∷ pos 8 ∷ pos 9 ∷ []; top = 3; max = 3 }))
unfolding push
push_runs = refl

-- With room for no more than there is, a push fails.
push_full_runs :
    push (some (record two { max = 2 })) (pos 9) ≡ some (failure, some (record two { max = 2 }))
unfolding push
push_full_runs = refl

pop_null_runs : pop (some two) none ≡ some (failure, none, some two)
unfolding pop
pop_null_runs = refl

push_refines_example :
    (t : Ptr) × (push (some two) (pos 9) ≡ some (success, t)) × Holds 3 t (pos 9 ∷ two_items)
push_refines_example = push_refines 3 (some two) two_items (pos 9) two-Holds

pop_refines_example :
    (t : Ptr) × (pop (some two) (some (pos 1)) ≡ some (success, some (pos 8), t))
    × Holds 3 t (pos 7 ∷ [])
pop_refines_example = pop_refines 3 (some two) two_items (pos 1) two-Holds

abbrev zeroed : ℕ → Option (List ℤ)
zeroed n = some (replicate n (pos 0))

zeroed_lem : (b : List ℤ) → zeroed 3 ≡ some b → b ≡ replicate 3 (pos 0)
zeroed_lem b e = cc
