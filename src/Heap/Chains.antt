-- ===== src/Heap/Chains.antt =====
-- The nodes of a list in the heap: their addresses and values, in order.
use code_snippet.Prelude.{
  ℕ, ◌<◌, ◌≡◌, true, false, Option, none, some, List, [], ◌∷◌, ℤ, ◌==◌, arith,
}
use code_snippet.Heap.{done, Ptr, Node, Heap, put, node_alloc, load, store, node_free}

abbrev pub Cells : Type 0
Cells = List (ℕ × ℤ)

-- The address of the first node, NULL for none.
abbrev pub first : Cells → Ptr
first [] = none
first (c ∷ cs) = some c.0

abbrev pub values : Cells → List ℤ
values [] = []
values (c ∷ cs) = c.1 ∷ values cs

abbrev pub Apart : ℕ → Cells → Type 0
Apart a [] = Unit
Apart a (c ∷ cs) = ((c.0 == a) ≡ false) × Apart a cs

-- The cells are live, distinct, and linked in their order up to NULL.
abbrev pub IsChain : Heap → Cells → Type 0
IsChain h [] = Unit
IsChain h (c ∷ cs) =
    (h.cells c.0 ≡ some (record { value = c.1; next = first cs }))
    × (c.0 < h.fresh)
    × Apart c.0 cs
    × IsChain h cs

-- Addresses that are all free.
abbrev pub AreFree : Heap → Cells → Type 0
AreFree h [] = Unit
AreFree h (c ∷ cs) = (h.cells c.0 ≡ none) × AreFree h cs

pub put-IsChain :
    (h : Heap) (a : ℕ) (n : Option Node) (cs : Cells)
    → IsChain h cs
    → Apart a cs
    → IsChain (put a n h) cs
unfolding put
put-IsChain h a n [] c p = tt
put-IsChain h a n (x ∷ cs) c p = ground (arith, put-IsChain h a n cs)

pub fresh-Apart : (h : Heap) (cs : Cells) → IsChain h cs → Apart h.fresh cs
fresh-Apart h [] c = tt
fresh-Apart h (x ∷ cs) c = ground (arith, fresh-Apart h cs)

-- A new node in front of a chain.
pub alloc-IsChain :
    (h : Heap) (v : ℤ) (cs : Cells) → IsChain h cs → IsChain (node_alloc true v h).1 cs
unfolding put node_alloc
alloc-IsChain h v [] c = tt
alloc-IsChain h v (x ∷ cs) c = ground (arith, alloc-IsChain h v cs)

pub load-cell : (h : Heap) (a : ℕ) (n : Node) → h.cells a ≡ some n → load (some a) h ≡ done n
unfolding load
load-cell h a n e = ground arith

pub store-cell :
    (h : Heap) (a : ℕ) (old n : Node)
    → h.cells a ≡ some old
    → store (some a) n h ≡ done (put a (some n) h)
unfolding store
store-cell h a old n e = ground arith

pub free-cell :
    (h : Heap) (a : ℕ) (old : Node)
    → h.cells a ≡ some old
    → node_free (some a) h ≡ done (put a none h)
unfolding node_free
free-cell h a old e = ground arith

pub put-same : (h : Heap) (a : ℕ) (n : Option Node) → (put a n h).cells a ≡ n
unfolding put
put-same h a n = ground arith

pub put-other :
    (h : Heap) (a b : ℕ) (n : Option Node) → (b == a) ≡ false → (put a n h).cells b ≡ h.cells b
unfolding put
put-other h a b n e = ground arith
