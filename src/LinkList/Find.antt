-- ===== src/LinkList/Find.antt =====
-- `list_search` and `list_modify`: the first node with a value.
use code_snippet.Prelude.{
  ℕ, zero, suc, ◌≡◌, ◌<◌, refl, ap, sym, ◌∙◌, pos, false, none, some, [], ◌∷◌, ℤ, ◌==ℤ◌, ◌==◌,
  length, ==ℤ_iff, if◌then◌else◌, arith,
}
use code_snippet.Stack.Lifo.{success, failure}
use code_snippet.Heap.{done, Ptr, Node, Heap, put}
use code_snippet.Heap.Chains.{Cells, first, IsChain, Apart, put-IsChain, load-cell, store-cell}
use code_snippet.LinkList.{LinkList, find, search, modify}
use code_snippet.LinkList.Insert.{Holds}

-- The address of the first cell with the value.
abbrev pub located : ℤ → Cells → Ptr
located v [] = none
located v (c ∷ cs) = if c.1 ==ℤ v then some c.0 else located v cs

-- The cells with the first `old` replaced.
abbrev pub replaced : ℤ → ℤ → Cells → Cells
replaced old new [] = []
replaced old new (c ∷ cs) = if c.1 ==ℤ old then (c.0, new) ∷ cs else c ∷ replaced old new cs

find-located :
    (fuel : ℕ) (h : Heap) (cs : Cells) (v : ℤ)
    → IsChain h cs
    → length cs < fuel
    → find fuel (first cs) v h ≡ done (located v cs)
unfolding find
find-located zero h cs v c e = absurd (omega arith)
find-located (suc fuel) h [] v c e = refl
find-located (suc fuel) h (x ∷ cs) v (at_x, old, apart, c) e =
    rw (load-cell h x.0 (record { value = x.1; next = first cs }) at_x)
      (ground (arith, find-located fuel h cs v c))

-- With a number of steps above that of the nodes, `list_search` returns the first node that
-- holds the value, and NULL when none does.
pub search-located :
    (fuel : ℕ) (l : LinkList) (h : Heap) (a : ℕ) (cs : Cells) (v : ℤ)
    → Holds l h a cs
    → length cs < fuel
    → search fuel (some l) v h ≡ done (located v cs)
unfolding search
search-located fuel l h a cs v w e =
    rw (w.head, load-cell h a (record { value = w.mark; next = first cs }) w.chain.0)
      (find-located fuel h cs v w.chain.3 e)

pub located-Apart :
    (v : ℤ) (a b : ℕ) (cs : Cells) → Apart a cs → located v cs ≡ some b → (a == b) ≡ false
located-Apart v a b [] p e = cc
located-Apart v a b (c ∷ cs) p e = ground (arith, located-Apart v a b cs)

first-replaced : (old new : ℤ) (cs : Cells) → first (replaced old new cs) ≡ first cs
first-replaced old new [] = refl
first-replaced old new (c ∷ cs) = ground arith

Apart-replaced : (old new : ℤ) (a : ℕ) (cs : Cells) → Apart a cs → Apart a (replaced old new cs)
Apart-replaced old new a [] p = tt
Apart-replaced old new a (c ∷ cs) p = ground (arith, Apart-replaced old new a cs)

-- The link of the first cell with the value.
abbrev pub after : ℤ → Cells → Ptr
after v [] = none
after v (c ∷ cs) = if c.1 ==ℤ v then first cs else after v cs

pub located-live :
    (h : Heap) (v : ℤ) (b : ℕ) (cs : Cells)
    → IsChain h cs
    → located v cs ≡ some b
    → h.cells b ≡ some (record { value = v; next = after v cs })
located-live h v b [] c e = cc
located-live h v b (x ∷ cs) (at_x, bound, apart, c) e =
    ground (arith, located-live h v b cs c, ==ℤ_iff x.1 v)

-- A write of `new` to the first node with the value `old` leaves a chain.
write-IsChain :
    (h : Heap) (old new : ℤ) (b : ℕ) (cs : Cells)
    → IsChain h cs
    → located old cs ≡ some b
    → IsChain (put b (some (record { value = new; next = after old cs })) h) (replaced old new cs)
unfolding put
write-IsChain h old new b [] c e = cc
write-IsChain h old new b (x ∷ cs) (at_x, bound, apart, c) e = ground (
  arith,
  write-IsChain h old new b cs c,
  put-IsChain h b (some (record { value = new; next = first cs })) cs c,
  first-replaced old new cs,
  Apart-replaced old new x.0 cs apart,
  located-Apart old x.0 b cs apart,
)

length-replaced : (old new : ℤ) (cs : Cells) → length (replaced old new cs) ≡ length cs
length-replaced old new [] = refl
length-replaced old new (c ∷ cs) = ground (arith, length-replaced old new cs)

-- With enough fuel, `list_modify` of a value that a node holds returns 0 and replaces the first
-- node's value, the nodes staying where they are.
pub modify-Holds :
    (fuel : ℕ) (l : LinkList) (h : Heap) (a b : ℕ) (cs : Cells) (old new : ℤ)
    → Holds l h a cs
    → length cs < fuel
    → located old cs ≡ some b
    → (h' : Heap) × (modify fuel (some l) old new h ≡ done (success, h'))
      × Holds l h' a (replaced old new cs)
unfolding modify put
modify-Holds fuel l h a b cs old new w e found =
    let live = located-live h old b cs w.chain.3 found in
    let n : Node = record { value = old; next = after old cs } in
    let n' : Node = record { value = new; next = after old cs } in
    let apart = located-Apart old a b cs w.chain.2 found in
    (
      put b (some n') h,
      rw
          (
            search-located fuel l h a cs old w e,
            found,
            load-cell h b n live,
            store-cell h b n n' live,
          )
          refl,
      record {
        head = w.head;
        mark = w.mark;
        chain = (
          ground (arith, w.chain.0, first-replaced old new cs, apart),
          w.chain.1,
          Apart-replaced old new a cs w.chain.2,
          write-IsChain h old new b cs w.chain.3 found,
        );
        size = w.size ∙ ap pos (sym (length-replaced old new cs));
      },
    )

-- With enough fuel, `list_modify` of a value that no node holds returns -1 and changes nothing.
pub modify-missing :
    (fuel : ℕ) (l : LinkList) (h : Heap) (a : ℕ) (cs : Cells) (old new : ℤ)
    → Holds l h a cs
    → length cs < fuel
    → located old cs ≡ none
    → modify fuel (some l) old new h ≡ done (failure, h)
unfolding modify
modify-missing fuel l h a cs old new w e missing =
    rw (search-located fuel l h a cs old w e, missing) refl
