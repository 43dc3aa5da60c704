-- ===== src/Stack/Seq.antt =====
-- algorithm/stack/seqstack/seqstack.c: a stack in an array. A pointer that may be NULL is an
-- `Option`; the results of `malloc` and `calloc` are arguments. A call that C leaves undefined
-- is `none`.
pub mod Refine
pub mod Client
use code_snippet.Prelude.{
  ℕ, zero, suc, ◌+◌, ◌-◌, ◌≡◌, Bool, true, false, Option, none, some, List, ℤ, ◌==◌, ◌>>=◌,
  if◌then◌else◌,
}
use code_snippet.Prelude.Arrays.{get_elem?, store}
use code_snippet.Stack.Lifo.{success, failure}

pub record Stack : Type 0 where
  pub buf : List ℤ
  pub top : ℕ
  pub max : ℕ

-- `stack_t *`
abbrev pub Ptr : Type 0
Ptr = Option Stack

-- `allocated` says whether `malloc` succeeds, `calloc max` is the zeroed array or NULL.
unfoldable pub init : (allocated : Bool) → (calloc : ℕ → Option (List ℤ)) → ℕ → Ptr
init allocated calloc max =
    if allocated
    then elim (calloc max) [
      | none ↦ none
      | some buf ↦ some (record { buf = buf; top = 0; max = max })
    ]
    else none

-- The status, and the pointer's object, which is gone.
unfoldable pub destroy : Ptr → ℤ × Ptr
destroy none = (failure, none)
destroy (some s) = (success, none)

unfoldable pub is_empty : Ptr → Option Bool
is_empty none = none
is_empty (some s) = some (s.top == 0)

unfoldable pub is_full : Ptr → Option Bool
is_full none = none
is_full (some s) = some (s.top == s.max)

unfoldable pub push : Ptr → ℤ → Option (ℤ × Ptr)
unfolding is_full
push none v = some (failure, none)
push (some s) v = do
  full ← is_full (some s)
  if full then some (failure, some s) else do
    buf ← store s.buf s.top v
    some (success, some (record s { buf = buf; top = s.top + 1 }))

-- `out` is `*data` before the call, `none` for a null `data`.
unfoldable pub pop : Ptr → Option ℤ → Option (ℤ × Option ℤ × Ptr)
unfolding is_empty
pop none out = some (failure, out, none)
pop (some s) none = some (failure, none, some s)
pop (some s) (some old) = do
  empty ← is_empty (some s)
  if empty then some (failure, some old, some s) else do
    v ← get_elem? s.buf (s.top - 1)
    some (success, some v, some (record s { top = s.top - 1 }))

-- `for (i = n - 1; i >= 0; i--) visit(buf[i])`
visit_down {ℓ} : {S : Type ℓ} → (ℤ → S → S) → List ℤ → ℕ → S → Option S
visit_down visit buf zero s = some s
visit_down visit buf (suc i) s = do v ← get_elem? buf i; visit_down visit buf i (visit v s)

-- `visit` is `none` for a null callback.
unfoldable pub foreach {ℓ} : {S : Type ℓ} → Ptr → Option (ℤ → S → S) → S → Option (ℤ × S)
unfolding visit_down
foreach none visit s = some (failure, s)
foreach (some p) none s = some (failure, s)
foreach (some p) (some visit) s = do s' ← visit_down visit p.buf p.top s; some (success, s')
