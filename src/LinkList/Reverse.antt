-- ===== src/LinkList/Reverse.antt =====
-- `list_reverse`: the nodes are linked again, one by one, in front of those behind the head.
use code_snippet.Prelude.{
  ℕ, zero, suc, ◌≡◌, ◌<◌, refl, ap, ◌∙◌, ◌+◌, pos, none, some, [], ◌∷◌, ℤ, length, arith,
}
use code_snippet.Stack.Lifo.{success}
use code_snippet.Heap.{done, Node, Heap, put}
use code_snippet.Heap.Chains.{
  Cells, first, IsChain, Apart, put-IsChain, load-cell, store-cell, put-same, put-other,
}
use code_snippet.LinkList.{LinkList, relink, reverse}
use code_snippet.LinkList.Insert.{Holds}

-- The first cells, the last of them first, in front of the second.
abbrev pub reversed_onto : Cells → Cells → Cells
reversed_onto [] ds = ds
reversed_onto (c ∷ cs) ds = reversed_onto cs (c ∷ ds)

abbrev AreApart : Cells → Cells → Type 0
AreApart [] ds = Unit
AreApart (c ∷ cs) ds = Apart c.0 ds × AreApart cs ds

AreApart-cons : (x : ℕ × ℤ) (cs ds : Cells) → Apart x.0 cs → AreApart cs ds → AreApart cs (x ∷ ds)
AreApart-cons x [] ds p q = tt
AreApart-cons x (c ∷ cs) ds p q = ground (arith, AreApart-cons x cs ds)

AreApart-nil : (cs : Cells) → AreApart cs []
AreApart-nil [] = tt
AreApart-nil (c ∷ cs) = (tt, AreApart-nil cs)

-- The heap after one turn of the loop.
abbrev turned : ℕ × ℤ → ℕ × ℤ → Cells → Heap → Heap
turned p x ds h =
    put p.0 (some (record { value = p.1; next = some x.0 }))
      (put x.0 (some (record { value = x.1; next = first ds })) h)

turned-front :
    (h : Heap) (p x : ℕ × ℤ) (cs ds : Cells)
    → IsChain h (p ∷ ds)
    → IsChain h (x ∷ cs)
    → Apart p.0 (x ∷ cs)
    → Apart x.0 ds
    → IsChain (turned p x ds h) (p ∷ x ∷ ds)
unfolding put
turned-front h p x cs ds c c' d e = ground (
  arith,
  put-IsChain h x.0 (some (record { value = x.1; next = first ds })) ds c.3 e,
  put-IsChain (put x.0 (some (record { value = x.1; next = first ds })) h) p.0
      (some (record { value = p.1; next = some x.0 })) ds,
)

turned-back :
    (h : Heap) (p x : ℕ × ℤ) (cs ds : Cells)
    → IsChain h (x ∷ cs)
    → Apart p.0 (x ∷ cs)
    → IsChain (turned p x ds h) cs
turned-back h p x cs ds c d =
    put-IsChain (put x.0 (some (record { value = x.1; next = first ds })) h) p.0
      (some (record { value = p.1; next = some x.0 })) cs
      (put-IsChain h x.0 (some (record { value = x.1; next = first ds })) cs c.3 c.2) d.1

relink-IsChain :
    (fuel : ℕ) (h : Heap) (p : ℕ × ℤ) (cs ds : Cells)
    → IsChain h (p ∷ ds)
    → IsChain h cs
    → Apart p.0 cs
    → AreApart cs ds
    → length cs < fuel
    → (h' : Heap) × (relink fuel (some p.0) (first cs) h ≡ done h')
      × IsChain h' (p ∷ reversed_onto cs ds)
unfolding relink
relink-IsChain zero h p cs ds c c' d g e = absurd (omega arith)
relink-IsChain (suc fuel) h p [] ds c c' d g e = (h, refl, c)
relink-IsChain (suc fuel) h p (x ∷ cs) ds c c' d g e =
    let n : Node = record { value = x.1; next = first cs } in
    let n' : Node = record { value = x.1; next = first ds } in
    let front : Node = record { value = p.1; next = first ds } in
    let front' : Node = record { value = p.1; next = some x.0 } in
    let h₁ : Heap = put x.0 (some n') h in
    let kept : h₁.cells p.0 ≡ some front =
      put-other h x.0 p.0 (some n') (ground (arith, d.0)) ∙ c.0 in
    let (h', runs, chain) =
      relink-IsChain fuel (turned p x ds h) p cs (x ∷ ds) (turned-front h p x cs ds c c' d g.0)
        (turned-back h p x cs ds c' d) d.1 (AreApart-cons x cs ds c'.2 g.1) (omega (arith, e)) in
    (
      h',
      rw
          (
            load-cell h x.0 n c'.0,
            load-cell h p.0 front c.0,
            store-cell h x.0 n n' c'.0,
            load-cell h₁ p.0 front kept,
            store-cell h₁ p.0 front front' kept,
          )
          runs,
      chain,
    )

length-reversed_onto : (cs ds : Cells) → length (reversed_onto cs ds) ≡ length cs + length ds
length-reversed_onto [] ds = omega arith
length-reversed_onto (c ∷ cs) ds = omega (arith, length-reversed_onto cs (c ∷ ds))

-- With enough fuel, `list_reverse` of a list returns 0 and leaves the same nodes in the opposite
-- order behind the same head node, each with its value.
pub reverse-Holds :
    (fuel : ℕ) (l : LinkList) (h : Heap) (a : ℕ) (cs : Cells)
    → Holds l h a cs
    → length cs < fuel
    → (h' : Heap) × (reverse fuel (some l) h ≡ done (success, h'))
      × Holds l h' a (reversed_onto cs [])
unfolding reverse put
reverse-Holds fuel l h a cs w e =
    let p : ℕ × ℤ = (a, w.mark) in
    let front : Node = record { value = w.mark; next = first cs } in
    let cut : Node = record { value = w.mark; next = none } in
    let h₁ : Heap = put a (some cut) h in
    let (h', runs, chain) =
      relink-IsChain fuel h₁ p cs [] (put-same h a (some cut), w.chain.1, tt, tt)
        (put-IsChain h a (some cut) cs w.chain.3 w.chain.2) w.chain.2 (AreApart-nil cs) e in
    (
      h',
      rw (w.head, load-cell h a front w.chain.0, store-cell h a front cut w.chain.0, runs) refl,
      record {
        head = w.head;
        mark = w.mark;
        chain = chain;
        size = w.size ∙ ap pos (omega (arith, length-reversed_onto cs []));
      },
    )
