-- ===== src/Stack/Seq/Client.antt =====
-- algorithm/stack/seqstack/seqstack.c as a stack for the clients of seqstack.h.
use code_snippet.Prelude.{ℕ, ◌≡◌, refl, Option, none, some, List, ℤ, ◌>>=◌}
use code_snippet.Stack.Lifo
use code_snippet.Stack.Lifo.{success}
use code_snippet.Stack.Api.{StackApi}
use code_snippet.Stack.Seq.{Ptr, destroy, is_empty, push, pop}
use code_snippet.Stack.Seq.Refine.{Holds, push_refines, pop_refines, is_empty_refines}

-- `stack_pop` with the address of a variable.
unfoldable pub pop_into : Ptr → ℤ → Option (ℤ × ℤ × Ptr)
pop_into p old = do (status, out, t) ← pop p (some old); v ← out; some (status, v, t)

pub pop_into_refines :
    (cap : ℕ) (p : Ptr) (xs : List ℤ) (old : ℤ)
    → Holds cap p xs
    → (t : Ptr) × (pop_into p old ≡ some ((Lifo.pop xs old).0, (Lifo.pop xs old).1, t))
      × Holds cap t (Lifo.pop xs old).2
unfolding pop_into
pop_into_refines cap p xs old h = let (t, e, h') = pop_refines cap p xs old h in (t, rw e, h')

-- `stack_destory`, which is always defined.
unfoldable pub give_back : Ptr → Option (ℤ × Ptr)
give_back p = some (destroy p)

abbrev pub IsNull : Ptr → Type 0
IsNull p = p ≡ none

pub destroy_refines :
    (cap : ℕ) (p : Ptr) (xs : List ℤ)
    → Holds cap p xs
    → (t : Ptr) × (give_back p ≡ some (success, t)) × IsNull t
unfolding give_back destroy
destroy_refines cap none xs h = absurd h
destroy_refines cap (some s) xs h = (none, refl, refl)

-- A stack of seqstack.c of capacity `cap`, as its clients see it.
abbrev pub api : ℕ → StackApi
api cap = record {
  State = Ptr;
  Holds = Holds cap;
  cap = cap;
  push = push;
  pop = pop_into;
  is_empty = is_empty;
  destroy = give_back;
  Freed = IsNull;
  push_law = push_refines cap;
  pop_law = pop_into_refines cap;
  is_empty_law = is_empty_refines cap;
  destroy_law = destroy_refines cap;
}
