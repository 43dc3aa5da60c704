-- ===== src/LinkList.antt =====
-- algorithm/list/single_linklist/single_linklist.c: a bounded list of nodes behind a head node.
-- A `list_t *` that may be NULL is an `Option`. The loops take fuel: a number above that of the
-- nodes is enough.
pub mod Insert
mod Tests
pub mod Visit
pub mod Reverse
pub mod Delete
pub mod Find
use code_snippet.Prelude.{
  ℕ, zero, suc, Bool, true, false, Option, none, some, ℤ, pos, not, ltb_ℤ, ◌+ℤ◌, ◌-ℤ◌, ◌==ℤ◌,
  if◌then◌else◌, List, [], ◌∷◌,
}
use code_snippet.Stack.Lifo.{success, failure}
use code_snippet.Heap.{
  Outcome, done, crash, out_of_fuel, ◌>>=◌, Ptr, Node, Heap, node_alloc, load, store, node_free,
}

pub record LinkList : Type 0 where
  pub head : Ptr
  pub len : ℤ
  pub max : ℤ

-- The three arguments are the results of the two `malloc`s and `max`.
unfoldable pub init : (list_allocated node_allocated : Bool) → ℤ → Heap → Option LinkList × Heap
init false node_allocated max h = (none, h)
init true false max h = (none, h)
init true true max h =
    let (head, h') = node_alloc true (pos 0) h in
    (some (record { head = head; len = pos 0; max = max }), h')

-- The loop of `list_destory`.
unfoldable pub free_from : ℕ → Ptr → Heap → Outcome Heap
free_from zero p h = out_of_fuel
free_from (suc fuel) none h = done h
free_from (suc fuel) (some a) h = do
  n ← load (some a) h
  h' ← node_free (some a) h
  free_from fuel n.next h'

unfoldable pub destroy : ℕ → Option LinkList → Heap → Outcome (ℤ × Heap)
destroy fuel none h = done (success, h)
destroy fuel (some l) h = do h' ← free_from fuel l.head h; done (success, h')

-- The writes of `list_insert` that put the node `a` behind the head.
unfoldable pub link : LinkList → ℕ → Heap → Outcome (ℤ × Option LinkList × Heap)
link l a h = do
  front ← load l.head h
  n ← load (some a) h
  h₁ ← store (some a) (record n { next = front.next }) h
  front' ← load l.head h₁
  h₂ ← store l.head (record front' { next = some a }) h₁
  done (success, some (record l { len = l.len +ℤ pos 1 }), h₂)

-- `list_insert`: the node is allocated before the tests, and stays so when they fail.
unfoldable pub insert : Bool → Option LinkList → ℤ → Heap → Outcome (ℤ × Option LinkList × Heap)
insert allocated none v h = done (failure, none, (node_alloc allocated v h).1)
insert false (some l) v h = done (failure, some l, h)
insert true (some l) v h =
    if not (ltb_ℤ l.len l.max)
    then done (failure, some l, (node_alloc true v h).1)
    else link l h.fresh (node_alloc true v h).1

-- The first loop of `list_delete`: the node whose successor is NULL or holds the value.
unfoldable pub find_before : ℕ → Ptr → ℤ → Heap → Outcome Ptr
find_before zero p v h = out_of_fuel
find_before (suc fuel) p v h = do
  n ← load p h
  elim n.next [
    | none ↦ done p
    | some b ↦ do
      m ← load (some b) h
      if m.value ==ℤ v then done p else find_before fuel (some b) v h
  ]

-- `list_delete`
unfoldable pub delete : ℕ → Option LinkList → ℤ → Heap → Outcome (ℤ × Option LinkList × Heap)
delete fuel none v h = crash
delete fuel (some l) v h = do
  node ← find_before fuel l.head v h
  elim node [
    | none ↦ done (failure, some l, h)
    | some a ↦ do
      n ← load (some a) h
      m ← load n.next h
      h₁ ← store (some a) (record n { next = m.next }) h
      h₂ ← node_free n.next h₁
      done (success, some (record l { len = l.len -ℤ pos 1 }), h₂)
  ]

-- The loop of `list_modify` and `list_search`.
unfoldable pub find : ℕ → Ptr → ℤ → Heap → Outcome Ptr
find zero p v h = out_of_fuel
find (suc fuel) none v h = done none
find (suc fuel) (some a) v h = do
  n ← load (some a) h
  if n.value ==ℤ v then done (some a) else find fuel n.next v h

unfoldable pub search : ℕ → Option LinkList → ℤ → Heap → Outcome Ptr
search fuel none v h = crash
search fuel (some l) v h = do front ← load l.head h; find fuel front.next v h

unfoldable pub modify : ℕ → Option LinkList → ℤ → ℤ → Heap → Outcome (ℤ × Heap)
modify fuel none old new h = crash
modify fuel (some l) old new h = do
  node ← search fuel (some l) old h
  elim node [
    | none ↦ done (failure, h)
    | some a ↦ do
      n ← load (some a) h
      h' ← store (some a) (record n { value = new }) h
      done (success, h')
  ]

-- The loop of `list_reverse`; the nodes go in front of those behind the head.
unfoldable pub relink : ℕ → (head node : Ptr) → Heap → Outcome Heap
relink zero head p h = out_of_fuel
relink (suc fuel) head none h = done h
relink (suc fuel) head (some a) h = do
  n ← load (some a) h
  front ← load head h
  h₁ ← store (some a) (record n { next = front.next }) h
  front' ← load head h₁
  h₂ ← store head (record front' { next = some a }) h₁
  relink fuel head n.next h₂

unfoldable pub reverse : ℕ → Option LinkList → Heap → Outcome (ℤ × Heap)
reverse fuel none h = done (failure, h)
reverse fuel (some l) h = do
  front ← load l.head h
  h₁ ← store l.head (record front { next = none }) h
  h₂ ← relink fuel l.head front.next h₁
  done (success, h₂)

-- The loop of `list_foreach`; `visit` acts on a state of the caller's.
unfoldable pub visit_from {ℓ} : {S : Type ℓ} → ℕ → Ptr → (ℤ → S → S) → Heap → S → Outcome S
visit_from zero p visit h s = out_of_fuel
visit_from (suc fuel) none visit h s = done s
visit_from (suc fuel) (some a) visit h s = do
  n ← load (some a) h
  visit_from fuel n.next visit h (visit n.value s)

unfoldable pub foreach {ℓ} :
    {S : Type ℓ} → ℕ → Option LinkList → (ℤ → S → S) → Heap → S → Outcome (ℤ × S)
foreach fuel none visit h s = crash
foreach fuel (some l) visit h s = do
  front ← load l.head h
  s' ← visit_from fuel front.next visit h s
  done (success, s')

-- `visit_node`, which recurs before it visits.
unfoldable pub visit_node {ℓ} : {S : Type ℓ} → ℕ → Ptr → (ℤ → S → S) → Heap → S → Outcome S
visit_node zero p visit h s = out_of_fuel
visit_node (suc fuel) none visit h s = done s
visit_node (suc fuel) (some a) visit h s = do
  n ← load (some a) h
  s' ← elim n.next [ none ↦ done s | some b ↦ visit_node fuel (some b) visit h s ]
  done (visit n.value s')

unfoldable pub foreach_reversingly {ℓ} :
    {S : Type ℓ} → ℕ → Option LinkList → (ℤ → S → S) → Heap → S → Outcome (ℤ × S)
foreach_reversingly fuel none visit h s = done (failure, s)
foreach_reversingly fuel (some l) visit h s = do
  front ← load l.head h
  s' ← visit_node fuel front.next visit h s
  done (success, s')
