-- ===== src/LinkList/Delete.antt =====
-- `list_delete`: the first node with a value is unlinked and freed; a value that is missing
-- makes the call read through NULL. `list_destory` frees every node.
use code_snippet.Prelude.{
  ℕ, zero, suc, ◌≡◌, ◌<◌, refl, ap, ◌∙◌, pos, false, none, some, [], ◌∷◌, ℤ, ◌==ℤ◌, ◌==◌, ◌-ℤ◌,
  length, pos_sub_one, if◌then◌else◌, arith,
}
use code_snippet.Stack.Lifo.{success}
use code_snippet.Heap.{done, crash, Node, Heap, put, load}
use code_snippet.Heap.Chains.{
  Cells, first, IsChain, Apart, AreFree, put-IsChain, load-cell, store-cell, free-cell, put-same,
  put-other,
}
use code_snippet.LinkList.{LinkList, find_before, delete, free_from, destroy}
use code_snippet.LinkList.Insert.{Holds}
use code_snippet.LinkList.Find.{located, located-Apart, located-live, after}

-- The node before the first one with the value, or the last node.
abbrev before : ℕ × ℤ → ℤ → Cells → ℕ × ℤ
before p v [] = p
before p v (c ∷ cs) = if c.1 ==ℤ v then p else before c v cs

-- The cells without the first one with the value.
abbrev pub removed : ℤ → Cells → Cells
removed v [] = []
removed v (c ∷ cs) = if c.1 ==ℤ v then cs else c ∷ removed v cs

find_before-eq :
    (fuel : ℕ) (h : Heap) (p : ℕ × ℤ) (cs : Cells) (v : ℤ)
    → IsChain h (p ∷ cs)
    → length cs < fuel
    → find_before fuel (some p.0) v h ≡ done (some (before p v cs).0)
unfolding find_before
find_before-eq zero h p cs v c e = absurd (omega arith)
find_before-eq (suc fuel) h p [] v c e =
    rw (load-cell h p.0 (record { value = p.1; next = none }) c.0) refl
find_before-eq (suc fuel) h p (x ∷ cs) v c e =
    rw
      (
        load-cell h p.0 (record { value = p.1; next = some x.0 }) c.0,
        load-cell h x.0 (record { value = x.1; next = first cs }) c.3.0,
      )
      (ground (arith, find_before-eq fuel h x cs v c.3))

before-live :
    (h : Heap) (p : ℕ × ℤ) (cs : Cells) (v : ℤ)
    → IsChain h (p ∷ cs)
    → h.cells (before p v cs).0 ≡ some (record { value = (before p v cs).1; next = located v cs })
before-live h p [] v c = c.0
before-live h p (x ∷ cs) v c = ground (arith, before-live h x cs v c.3, c.0)

-- With enough fuel, `list_delete` of a value that no node holds ends in a read through NULL.
pub delete-missing :
    (fuel : ℕ) (l : LinkList) (h : Heap) (a : ℕ) (cs : Cells) (v : ℤ)
    → Holds l h a cs
    → length cs < fuel
    → located v cs ≡ none
    → delete fuel (some l) v h ≡ crash
unfolding delete load
delete-missing fuel l h a cs v w e missing =
    rw
      (
        w.head,
        find_before-eq fuel h (a, w.mark) cs v w.chain e,
        load-cell h (before (a, w.mark) v cs).0
            (record { value = (before (a, w.mark) v cs).1; next = located v cs })
            (before-live h (a, w.mark) cs v w.chain),
        missing,
      )
      refl

-- The heap after `list_delete` of the node at `b`.
abbrev unlinked : ℕ × ℤ → ℤ → Cells → ℕ → Heap → Heap
unlinked p v cs b h =
    put b none
      (put (before p v cs).0 (some (record { value = (before p v cs).1; next = after v cs })) h)

before-Apart :
    (a : ℕ) (p : ℕ × ℤ) (v : ℤ) (cs : Cells) → Apart a (p ∷ cs) → ((before p v cs).0 == a) ≡ false
before-Apart a p v [] d = d.0
before-Apart a p v (c ∷ cs) d = ground (arith, before-Apart a c v cs d.1, d.0)

Apart-removed : (a : ℕ) (v : ℤ) (cs : Cells) → Apart a cs → Apart a (removed v cs)
Apart-removed a v [] d = tt
Apart-removed a v (c ∷ cs) d = ground (arith, Apart-removed a v cs)

removed-IsChain :
    (h : Heap) (p : ℕ × ℤ) (v : ℤ) (cs : Cells) (b : ℕ)
    → IsChain h (p ∷ cs)
    → located v cs ≡ some b
    → IsChain (unlinked p v cs b h) (p ∷ removed v cs)
unfolding put
removed-IsChain h p v [] b c e = cc
removed-IsChain h p v (x ∷ cs) b (at_p, bound, apart, c) e = ground (
  arith,
  removed-IsChain h x v cs b c,
  put-IsChain h p.0 (some (record { value = p.1; next = first cs })) cs c.3 apart.1,
  put-IsChain (put p.0 (some (record { value = p.1; next = first cs })) h) x.0 none cs,
  Apart-removed p.0 v cs apart.1,
  before-Apart p.0 x v cs apart,
  located-Apart v p.0 b cs apart.1,
)

before-other :
    (h : Heap) (p : ℕ × ℤ) (v : ℤ) (b : ℕ) (cs : Cells)
    → IsChain h (p ∷ cs)
    → located v cs ≡ some b
    → (b == (before p v cs).0) ≡ false
before-other h p v b [] c e = cc
before-other h p v b (x ∷ cs) c e = ground (arith, before-other h x v b cs c.3, c.2)

length-removed :
    (v : ℤ) (b : ℕ) (cs : Cells) → located v cs ≡ some b → length cs ≡ suc (length (removed v cs))
length-removed v b [] e = cc
length-removed v b (c ∷ cs) e = ground (arith, length-removed v b cs)

-- With enough fuel, `list_delete` of a value that a node holds returns 0, takes the first such
-- node out of the list, which keeps its other nodes in order, and frees that node.
pub delete-Holds :
    (fuel : ℕ) (l : LinkList) (h : Heap) (a b : ℕ) (cs : Cells) (v : ℤ)
    → Holds l h a cs
    → length cs < fuel
    → located v cs ≡ some b
    → (l' : LinkList) × (h' : Heap) × (delete fuel (some l) v h ≡ done (success, some l', h'))
      × Holds l' h' a (removed v cs)
      × (h'.cells b ≡ none)
unfolding delete
delete-Holds fuel l h a b cs v w e found =
    let p : ℕ × ℤ = (a, w.mark) in
    let q : ℕ × ℤ = before p v cs in
    let live = before-live h p cs v w.chain in
    let n : Node = record { value = q.1; next = located v cs } in
    let n' : Node = record { value = q.1; next = after v cs } in
    let m : Node = record { value = v; next = after v cs } in
    let gone = located-live h v b cs w.chain.3 found in
    let other = before-other h p v b cs w.chain found in
    let stops : find_before fuel l.head v h ≡ done (some q.0) =
      rw w.head (find_before-eq fuel h p cs v w.chain e) in
    (
      record l { len = l.len -ℤ pos 1 },
      unlinked p v cs b h,
      rw
          (
            stops,
            load-cell h q.0 n live,
            found,
            load-cell h b m gone,
            store-cell h q.0 n n' live,
            free-cell (put q.0 (some n') h) b m (put-other h q.0 b (some n') other ∙ gone),
          )
          refl,
      record {
        head = w.head;
        mark = w.mark;
        chain = removed-IsChain h p v cs b w.chain found;
        size =
            ap (λ n. n -ℤ pos 1) (w.size ∙ ap pos (length-removed v b cs found))
            ∙ pos_sub_one (length (removed v cs));
      },
      put-same (put q.0 (some n') h) b none,
    )

pub free_from-eq :
    (fuel : ℕ) (h : Heap) (cs : Cells)
    → IsChain h cs
    → length cs < fuel
    → (h' : Heap) × (free_from fuel (first cs) h ≡ done h')
      × AreFree h' cs
      × ((a : ℕ) → Apart a cs → h'.cells a ≡ h.cells a)
unfolding free_from
free_from-eq zero h cs c e = absurd (omega arith)
free_from-eq (suc fuel) h [] c e = (h, refl, tt, λ a p. refl)
free_from-eq (suc fuel) h (x ∷ cs) c e =
    let h₁ : Heap = put x.0 none h in
    let (h', runs, free, kept) =
      free_from-eq fuel h₁ cs (put-IsChain h x.0 none cs c.3 c.2) (omega (arith, e)) in
    let n : Node = record { value = x.1; next = first cs } in
    (
      h',
      rw (load-cell h x.0 n c.0, free-cell h x.0 n c.0) runs,
      (kept x.0 c.2 ∙ put-same h x.0 none, free),
      λ a p. kept a p.1 ∙ put-other h x.0 a none (ground (arith, p.0)),
    )

-- With enough fuel, `list_destory` frees the head node and every node of the list, each of them
-- once, and no other.
pub destroy-frees :
    (fuel : ℕ) (l : LinkList) (h : Heap) (a : ℕ) (cs : Cells)
    → (w : Holds l h a cs) → suc (length cs) < fuel
    → (h' : Heap) × (destroy fuel (some l) h ≡ done (success, h'))
      × AreFree h' ((a, w.mark) ∷ cs)
      × ((b : ℕ) → Apart b ((a, w.mark) ∷ cs) → h'.cells b ≡ h.cells b)
unfolding destroy
destroy-frees fuel l h a cs w e =
    let (h', runs, free, kept) = free_from-eq fuel h ((a, w.mark) ∷ cs) w.chain e in
    (h', rw (w.head, runs) refl, free, kept)
