-- ===== src/LinkList/Insert.antt =====
-- What a list in the heap stands for, and `list_init` and `list_insert`.
use code_snippet.Prelude.{
  ℕ, ◌≡◌, refl, ap, ◌∙◌, pos_add_one, true, false, none, some, [], ◌∷◌, ℤ, pos, ltb_ℤ, ◌+ℤ◌, length,
  arith,
}
use code_snippet.Stack.Lifo.{success, failure}
use code_snippet.Heap.{done, Heap, put, node_alloc, load, store}
use code_snippet.Heap.Chains.{
  Cells, first, IsChain, Apart, put-IsChain, fresh-Apart, alloc-IsChain, put-same,
}
use code_snippet.LinkList.{LinkList, init, link, insert}

-- The list `l` has the nodes `cs` behind the head node at the address `a`.
pub record Holds (l : LinkList) (h : Heap) (a : ℕ) (cs : Cells) : Type 0 where
  pub head : l.head ≡ some a
  pub mark : ℤ
  pub chain : IsChain h ((a, mark) ∷ cs)
  pub size : l.len ≡ pos (length cs)

-- The heap after `list_insert` of `v`.
abbrev pub inserted : ℕ → ℤ → Cells → ℤ → Heap → Heap
inserted a mark cs v h =
    put a (some (record { value = mark; next = some h.fresh }))
      (put h.fresh (some (record { value = v; next = first cs })) (node_alloc true v h).1)

pub inserted-IsChain :
    (h : Heap) (a : ℕ) (mark v : ℤ) (cs : Cells)
    → IsChain h ((a, mark) ∷ cs)
    → IsChain (inserted a mark cs v h) ((a, mark) ∷ (h.fresh, v) ∷ cs)
unfolding put node_alloc
inserted-IsChain h a mark v cs (at_a, old, apart, c) =
    let front = fresh-Apart h ((a, mark) ∷ cs) (at_a, old, apart, c) in
    let rest =
      put-IsChain
        (put h.fresh (some (record { value = v; next = first cs })) (node_alloc true v h).1) a
        (some (record { value = mark; next = some h.fresh })) cs
        (put-IsChain (node_alloc true v h).1 h.fresh (some (record { value = v; next = first cs }))
          cs (alloc-IsChain h v cs c) (front.1))
        apart in
    (ground arith, omega arith, (ground arith, apart), (ground arith, omega arith, front.1, rest))

link-eq :
    (l : LinkList) (h : Heap) (a : ℕ) (mark v : ℤ) (cs : Cells)
    → l.head ≡ some a
    → IsChain h ((a, mark) ∷ cs)
    → link l h.fresh (node_alloc true v h).1
      ≡ done (success, some (record l { len = l.len +ℤ pos 1 }), inserted a mark cs v h)
unfolding link put node_alloc load store
link-eq l h a mark v cs e (at_a, old, apart, c) = ground arith

-- `list_init` with memory gives an empty list with a head node of its own; without, NULL.
pub init-Holds :
    (h : Heap) (max : ℤ)
    → (l : LinkList) × ((init true true max h).0 ≡ some l)
      × (l.max ≡ max)
      × Holds l (init true true max h).1 h.fresh []
unfolding init put node_alloc
init-Holds h max = (
  record { head = some h.fresh; len = pos 0; max = max },
  refl,
  refl,
  record { head = refl; mark = pos 0; chain = (ground arith, omega arith, tt, tt); size = refl },
)

-- With memory and room, `list_insert` puts the value in front of the others: it returns 0, and
-- the list then has one node more, at a fresh address, before the nodes it had.
pub insert-Holds :
    (l : LinkList) (h : Heap) (a : ℕ) (cs : Cells) (v : ℤ)
    → Holds l h a cs
    → ltb_ℤ l.len l.max ≡ true
    → (l' : LinkList) × (h' : Heap) × (insert true (some l) v h ≡ done (success, some l', h'))
      × Holds l' h' a ((h.fresh, v) ∷ cs)
      × (l'.max ≡ l.max)
unfolding insert
insert-Holds l h a cs v w room = (
  record l { len = l.len +ℤ pos 1 },
  inserted a w.mark cs v h,
  rw room (link-eq l h a w.mark v cs w.head w.chain),
  record {
    head = w.head;
    mark = w.mark;
    chain = inserted-IsChain h a w.mark v cs w.chain;
    size = ap (λ n. n +ℤ pos 1) w.size ∙ pos_add_one (length cs);
  },
  refl,
)

-- A full list is as it was after `list_insert`, which returns -1 and leaves the node that it
-- allocated in the heap, where nothing points to it.
pub insert-full :
    (l : LinkList) (h : Heap) (a : ℕ) (cs : Cells) (v : ℤ)
    → (w : Holds l h a cs) → ltb_ℤ l.len l.max ≡ false
    → (h' : Heap) × (insert true (some l) v h ≡ done (failure, some l, h'))
      × Holds l h' a cs
      × (h'.cells h.fresh ≡ some (record { value = v; next = none }))
      × Apart h.fresh ((a, w.mark) ∷ cs)
unfolding insert node_alloc
insert-full l h a cs v w full = (
  (node_alloc true v h).1,
  rw full refl,
  record {
    head = w.head;
    mark = w.mark;
    chain = alloc-IsChain h v ((a, w.mark) ∷ cs) w.chain;
    size = w.size;
  },
  put-same h h.fresh (some (record { value = v; next = none })),
  fresh-Apart h ((a, w.mark) ∷ cs) w.chain,
)
