-- ===== src/Stack/Fixed.antt =====
-- The stack that exam/haier/bracketMatch.c carries with it: an array of STACK_SIZE integers inside
-- of the struct. It has the fields of `Seq.Stack`, and other functions.
use code_snippet.Prelude.{
  ℕ, ◌+◌, ◌-◌, ◌≡◌, refl, Bool, true, Option, none, some, List, [], ◌∷◌, ℤ, pos, length, ◌==◌,
  ◌==ℤ◌, ◌>>=◌, arith, if◌then◌else◌,
}
use code_snippet.Prelude.Arrays.{get_elem?, store}
use code_snippet.Stack.Lifo
use code_snippet.Stack.Lifo.{success, failure}
use code_snippet.Stack.Api.{StackApi}
use code_snippet.Stack.Seq
use code_snippet.Stack.Seq.{Stack, Ptr}
use code_snippet.Stack.Seq.Refine.{Holds, push_refines, pop_refines, length-top}

abbrev pub stack_size : ℕ
stack_size = 16

-- `buf` is what the array holds when `malloc` returns, which the code does not clear.
unfoldable pub init : (allocated : Bool) → (buf : List ℤ) → Ptr
init allocated buf =
    if allocated then some (record { buf = buf; top = 0; max = stack_size }) else none

unfoldable pub destroy : Ptr → ℤ × Ptr
destroy none = (failure, none)
destroy (some s) = (success, none)

unfoldable pub push : Ptr → ℤ → Option (ℤ × Ptr)
push none v = some (failure, none)
push (some s) v = if s.top == s.max then some (failure, some s) else do
  buf ← store s.buf s.top v
  some (success, some (record s { buf = buf; top = s.top + 1 }))

unfoldable pub pop : Ptr → Option ℤ → Option (ℤ × Option ℤ × Ptr)
pop none out = some (failure, out, none)
pop (some s) none = some (failure, none, some s)
pop (some s) (some old) = if s.top == 0 then some (failure, some old, some s) else do
  v ← get_elem? s.buf (s.top - 1)
  some (success, some v, some (record s { top = s.top - 1 }))

unfoldable pub len : Ptr → ℤ
len none = failure
len (some s) = pos s.top

push-Seq : (p : Ptr) (v : ℤ) → push p v ≡ Seq.push p v
unfolding push Seq.push
push-Seq none v = refl
push-Seq (some s) v = refl

pop-Seq : (p : Ptr) (out : Option ℤ) → pop p out ≡ Seq.pop p out
unfolding pop Seq.pop
pop-Seq none out = refl
pop-Seq (some s) none = refl
pop-Seq (some s) (some old) = refl

-- `stack_pop` with the address of a variable.
unfoldable pub pop_into : Ptr → ℤ → Option (ℤ × ℤ × Ptr)
pop_into p old = do (status, out, t) ← pop p (some old); v ← out; some (status, v, t)

-- The test `stack_len(stack) != 0` of `caculate`, negated.
unfoldable pub is_empty : Ptr → Option Bool
is_empty p = some (len p ==ℤ pos 0)

unfoldable pub give_back : Ptr → Option (ℤ × Ptr)
give_back p = some (destroy p)

abbrev pub IsNull : Ptr → Type 0
IsNull p = p ≡ none

pub init-Holds : (buf : List ℤ) → length buf ≡ stack_size → Holds stack_size (init true buf) []
unfolding init
init-Holds buf e = record {
  size = refl;
  storage = omega arith;
  bound = omega arith;
  contents = refl;
}

pub push_law :
    (p : Ptr) (xs : List ℤ) (v : ℤ)
    → Holds stack_size p xs
    → (t : Ptr) × (push p v ≡ some ((Lifo.push stack_size xs v).0, t))
      × Holds stack_size t (Lifo.push stack_size xs v).1
push_law p xs v held = rw push-Seq (push_refines stack_size p xs v held)

pub pop_law :
    (p : Ptr) (xs : List ℤ) (old : ℤ)
    → Holds stack_size p xs
    → (t : Ptr) × (pop_into p old ≡ some ((Lifo.pop xs old).0, (Lifo.pop xs old).1, t))
      × Holds stack_size t (Lifo.pop xs old).2
unfolding pop_into
pop_law p xs old held =
    let (t, e, held') = pop_refines stack_size p xs old held in (t, rw (pop-Seq, e), held')

pub is_empty_law :
    (p : Ptr) (xs : List ℤ) → Holds stack_size p xs → is_empty p ≡ some (Lifo.is_empty xs)
unfolding is_empty len
is_empty_law none xs held = absurd held
is_empty_law (some s) [] r = ground (arith, length-top r)
is_empty_law (some s) (x ∷ xs) r = ground (arith, length-top r)

pub destroy_law :
    (p : Ptr) (xs : List ℤ)
    → Holds stack_size p xs
    → (t : Ptr) × (give_back p ≡ some (success, t)) × IsNull t
unfolding give_back destroy
destroy_law none xs held = absurd held
destroy_law (some s) xs held = (none, refl, refl)

-- This stack, as `caculate` sees it.
abbrev pub api : StackApi
api = record {
  State = Ptr;
  Holds = Holds stack_size;
  cap = stack_size;
  push = push;
  pop = pop_into;
  is_empty = is_empty;
  destroy = give_back;
  Freed = IsNull;
  push_law = push_law;
  pop_law = pop_law;
  is_empty_law = is_empty_law;
  destroy_law = destroy_law;
}
