-- ===== src/SeqList.antt =====
-- algorithm/list/seqlist/seqlist.c: a bounded list in an array. A `list_t *` that may be NULL is
-- an `Option`, and a call that C leaves undefined is `none`.
pub mod Refine
mod Tests
use code_snippet.Prelude.{
  ℕ, zero, suc, ◌+◌, ◌-◌, Bool, true, false, Option, none, some, List, ℤ, ◌==◌, ◌==ℤ◌, ◌>>=◌,
  if◌then◌else◌,
}
use code_snippet.Prelude.Arrays.{get_elem?, store}
use code_snippet.Stack.Lifo.{success, failure}

pub record SeqList : Type 0 where
  pub buf : List ℤ
  pub max : ℕ
  pub top : ℕ

-- `allocated` says whether `malloc` succeeds, `calloc max` is the zeroed array or NULL.
unfoldable pub init : (allocated : Bool) → (calloc : ℕ → Option (List ℤ)) → ℕ → Option SeqList
init false calloc max = none
init true calloc max = elim (calloc max) [
  | none ↦ none
  | some buf ↦ some (record { buf = buf; max = max; top = 0 })
]

-- The status, and the pointer's object, which is gone.
unfoldable pub destroy : Option SeqList → ℤ × Option SeqList
destroy none = (failure, none)
destroy (some l) = (success, none)

unfoldable pub insert : Option SeqList → ℤ → Option (ℤ × Option SeqList)
insert none v = some (failure, none)
insert (some l) v =
    if l.top == l.max
    then some (failure, some l)
    else (store l.buf l.top v >>= λ buf.
        some (success, some (record l { buf = buf; top = l.top + 1 })))

-- The inner loop of `list_delete` from `j`, with `rounds` left of it.
unfoldable pub close_gap : (rounds : ℕ) → (j : ℕ) → List ℤ → Option (List ℤ)
close_gap zero j buf = some buf
close_gap (suc rounds) j buf = do
  x ← get_elem? buf j
  buf' ← store buf (j - 1) x
  close_gap rounds (j + 1) buf'

-- The outer loop of `list_delete` from `i`.
unfoldable pub delete_from : (rounds : ℕ) → (i : ℕ) → SeqList → ℤ → Option (ℤ × Option SeqList)
delete_from zero i l v = some (failure, some l)
delete_from (suc rounds) i l v = do
  x ← get_elem? l.buf i
  if x ==ℤ v
      then (close_gap rounds (i + 1) l.buf >>= λ buf.
          some (success, some (record l { buf = buf; top = l.top - 1 })))
      else delete_from rounds (i + 1) l v

unfoldable pub delete : Option SeqList → ℤ → Option (ℤ × Option SeqList)
delete none v = some (failure, none)
delete (some l) v = delete_from l.top 0 l v

-- The loops of `list_search` and `list_modify`: the index of the value.
unfoldable pub index_from : (rounds : ℕ) → (i : ℕ) → List ℤ → ℤ → Option (Option ℕ)
index_from zero i buf v = some none
index_from (suc rounds) i buf v = do
  x ← get_elem? buf i
  if x ==ℤ v then some (some i) else index_from rounds (i + 1) buf v

unfoldable pub search : Option SeqList → ℤ → Option Bool
search none v = some false
search (some l) v = do
  found ← index_from l.top 0 l.buf v
  elim found [ none ↦ some false | some i ↦ some true ]

unfoldable pub modify : Option SeqList → ℤ → ℤ → Option (ℤ × Option SeqList)
modify none old new = some (failure, none)
modify (some l) old new = do
  found ← index_from l.top 0 l.buf old
  elim found [
    | none ↦ some (failure, some l)
    | some i ↦ store l.buf i new >>= λ buf. some (success, some (record l { buf = buf }))
  ]

-- The loop of `list_foreach` from `i`; `visit` acts on a state of the caller's.
unfoldable pub visit_up {ℓ} :
    {S : Type ℓ} → (rounds : ℕ) → (i : ℕ) → (ℤ → S → S) → List ℤ → S → Option S
visit_up zero i visit buf s = some s
visit_up (suc rounds) i visit buf s = do
  x ← get_elem? buf i
  visit_up rounds (i + 1) visit buf (visit x s)

unfoldable pub foreach {ℓ} : {S : Type ℓ} → Option SeqList → (ℤ → S → S) → S → Option (ℤ × S)
foreach none visit s = some (failure, s)
foreach (some l) visit s = do s' ← visit_up l.top 0 visit l.buf s; some (success, s')
