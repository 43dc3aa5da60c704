-- ===== src/LinkStack.antt =====
-- algorithm/stack/linkstack/linkstack.c: a bounded stack of nodes behind a head node, and the
-- list that it stands for. A `stack_t *` that may be NULL is an `Option`.
pub mod Refine
pub mod Nodes
mod Tests
use code_snippet.Prelude.{
  ℕ, zero, suc, ◌≡◌, ◌<◌, ◌≤◌, refl, ap, sym, ◌∙◌, Bool, true, false, Option, none, some, List, [],
  ◌∷◌, ℤ, pos, ◌+ℤ◌, ◌-ℤ◌, ◌==ℤ◌, ◌==◌, if◌then◌else◌, length, visit_all, pos_add_one, pos_sub_one,
  arith,
}
use code_snippet.Stack.Lifo
use code_snippet.Stack.Lifo.{success, failure}
use code_snippet.Heap.{
  Outcome, done, crash, out_of_fuel, ◌>>=◌, Ptr, Node, Heap, put, node_alloc, load, store,
  node_free,
}
use code_snippet.Heap.Chains.{
  Cells, first, values, IsChain, AreFree, Apart, put-IsChain, load-cell, store-cell, free-cell,
  put-same, put-other,
}
use code_snippet.LinkList.{free_from, visit_from}

pub record LinkStack : Type 0 where
  pub top : Ptr
  pub len : ℤ
  pub max : ℤ

-- `stack_init`, which ends without a `return`: with memory, what the caller gets is the
-- argument `unspecified`.
unfoldable pub init :
    (unspecified : Option LinkStack) (stack_allocated node_allocated : Bool)
    → Heap
    → Option LinkStack × Heap
init unspecified false node_allocated h = (none, h)
init unspecified true false h = (none, h)
init unspecified true true h = (unspecified, (node_alloc true (pos 0) h).1)

unfoldable pub is_empty : LinkStack → Bool
is_empty s = s.len ==ℤ pos 0

unfoldable pub is_full : LinkStack → Bool
is_full s = s.len ==ℤ s.max

-- The writes of `stack_push` that put the node `a` behind the head.
unfoldable pub link : LinkStack → ℕ → Heap → Outcome (ℤ × Option LinkStack × Heap)
link s a h = do
  front ← load s.top h
  n ← load (some a) h
  h₁ ← store (some a) (record n { next = front.next }) h
  front' ← load s.top h₁
  h₂ ← store s.top (record front' { next = some a }) h₁
  done (success, some (record s { len = s.len +ℤ pos 1 }), h₂)

-- `stack_push`; `allocated` says whether the `malloc` of the node succeeds.
unfoldable pub push : Bool → Option LinkStack → ℤ → Heap → Outcome (ℤ × Option LinkStack × Heap)
unfolding is_full
push allocated none v h = done (failure, none, h)
push allocated (some s) v h =
    if is_full s
    then done (failure, some s, h)
    else if allocated
    then link s h.fresh (node_alloc true v h).1
    else done (failure, some s, h)

-- The part of `stack_pop` after the guards; `out` is `*data`, `none` for a null `data`.
unfoldable pub unlink :
    LinkStack → Option ℤ → Heap → Outcome (ℤ × Option ℤ × Option LinkStack × Heap)
unlink s none h = crash
unlink s (some old) h = do
  front ← load s.top h
  n ← load front.next h
  h₁ ← store s.top (record front { next = n.next }) h
  m ← load front.next h₁
  h₂ ← node_free front.next h₁
  done (success, some m.value, some (record s { len = s.len -ℤ pos 1 }), h₂)

unfoldable pub pop :
    Option LinkStack → Option ℤ → Heap → Outcome (ℤ × Option ℤ × Option LinkStack × Heap)
unfolding is_empty
pop none out h = done (failure, out, none, h)
pop (some s) out h = if is_empty s then done (failure, out, some s, h) else unlink s out h

-- `stack_destory`; the loop is that of `list_destory`.
unfoldable pub destroy : ℕ → Option LinkStack → Heap → Outcome (ℤ × Heap)
destroy fuel none h = done (failure, h)
destroy fuel (some s) h = do h' ← free_from fuel s.top h; done (success, h')

-- `stack_foreach`; the loop is that of `list_foreach`.
unfoldable pub foreach {ℓ} :
    {S : Type ℓ} → ℕ → Option LinkStack → (ℤ → S → S) → Heap → S → Outcome (ℤ × S)
foreach fuel none visit h x = done (failure, x)
foreach fuel (some s) visit h x = do
  front ← load s.top h
  x' ← visit_from fuel front.next visit h x
  done (success, x')
