-- ===== src/LinkStack/Tests.antt =====
-- The theorems on linkstack.c at a stack of two.
use code_snippet.Prelude.{◌≡◌, refl, true, none, some, [], ◌∷◌, pos, ◌==◌, if◌then◌else◌, arith}
use code_snippet.Stack.Lifo.{success}
use code_snippet.Heap.{done, Heap}
use code_snippet.Heap.Chains.{Cells, values}
use code_snippet.LinkStack.{LinkStack, push, pop}
use code_snippet.LinkStack.Refine.{Holds, push-Lifo, pop-Lifo}

abbrev nodes : Cells
nodes = (2, pos 8) ∷ (1, pos 7) ∷ []

-- The head node at 0, then 8 at 2, then 7 at 1.
abbrev heap : Heap
heap = record {
  cells = λ a.
      if a == 0
      then some (record { value = pos 0; next = some 2 })
      else if a == 1
      then some (record { value = pos 7; next = none })
      else if a == 2
      then some (record { value = pos 8; next = some 1 })
      else none;
  fresh = 3;
}

abbrev two : LinkStack
two = record { top = some 0; len = pos 2; max = pos 3 }

abbrev two-Holds : Holds 3 two heap nodes
two-Holds = record {
  mark = (0, pos 0);
  top = refl;
  chain = (
    refl,
    omega arith,
    (refl, (refl, tt)),
    (refl, omega arith, (refl, tt), (refl, omega arith, tt, tt)),
  );
  size = refl;
  bound = refl;
}

push-Lifo_example :
    (t : LinkStack) × (h' : Heap) × (cs' : Cells) × (push true (some two) (pos 9) heap
      ≡ done (success, some t, h'))
    × Holds 3 t h' cs'
    × (values cs' ≡ pos 9 ∷ pos 8 ∷ pos 7 ∷ [])
push-Lifo_example = push-Lifo 3 two heap nodes (pos 9) two-Holds

pop-Lifo_example :
    (t : LinkStack) × (h' : Heap) × (cs' : Cells) × (pop (some two) (some (pos 1)) heap
      ≡ done (success, some (pos 8), some t, h'))
    × Holds 3 t h' cs'
    × (values cs' ≡ pos 7 ∷ [])
pop-Lifo_example = pop-Lifo 3 two heap nodes (pos 1) two-Holds
