-- ===== src/LinkList/Visit.antt =====
-- `list_foreach` and `list_foreach_reversingly`: the callback on each value, in the order of the
-- list and against it.
use code_snippet.Prelude.{
  ℕ, zero, suc, ◌≡◌, ◌<◌, refl, none, some, List, [], ◌∷◌, ℤ, length, visit_all, arith,
}
use code_snippet.Stack.Lifo.{success}
use code_snippet.Heap.{done, Heap}
use code_snippet.Heap.Chains.{Cells, first, values, IsChain, load-cell}
use code_snippet.LinkList.{LinkList, visit_from, visit_node, foreach, foreach_reversingly}
use code_snippet.LinkList.Insert.{Holds}

-- The callback on the values from the last to the first.
abbrev pub visit_back {ℓ} : {S : Type ℓ} → (ℤ → S → S) → List ℤ → S → S
visit_back visit [] s = s
visit_back visit (x ∷ xs) s = visit x (visit_back visit xs s)

pub visit_from-eq {ℓ} :
    {S : Type ℓ} (fuel : ℕ) (visit : ℤ → S → S) (h : Heap) (cs : Cells) (s : S)
    → IsChain h cs
    → length cs < fuel
    → visit_from fuel (first cs) visit h s ≡ done (visit_all visit (values cs) s)
unfolding visit_from
visit_from-eq zero visit h cs s c e = absurd (omega arith)
visit_from-eq (suc fuel) visit h [] s c e = refl
visit_from-eq (suc fuel) visit h (x ∷ cs) s c e =
    rw (load-cell h x.0 (record { value = x.1; next = first cs }) c.0)
      (visit_from-eq fuel visit h cs (visit x.1 s) c.3 (omega (arith, e)))

visit_node-eq {ℓ} :
    {S : Type ℓ} (fuel : ℕ) (visit : ℤ → S → S) (h : Heap) (cs : Cells) (s : S)
    → IsChain h cs
    → length cs < fuel
    → visit_node fuel (first cs) visit h s ≡ done (visit_back visit (values cs) s)
unfolding visit_node
visit_node-eq zero visit h cs s c e = absurd (omega arith)
visit_node-eq (suc fuel) visit h [] s c e = refl
visit_node-eq (suc fuel) visit h (x ∷ []) s c e =
    rw (load-cell h x.0 (record { value = x.1; next = none }) c.0) refl
visit_node-eq (suc fuel) visit h (x ∷ y ∷ cs) s c e =
    rw
      (
        load-cell h x.0 (record { value = x.1; next = some y.0 }) c.0,
        visit_node-eq fuel visit h (y ∷ cs) s c.3 (omega (arith, e)),
      )
      refl

-- With enough fuel, `list_foreach` calls the callback on the values in the order of the list,
-- `list_foreach_reversingly` in the opposite order, and both return 0.
pub foreach-both {ℓ} :
    {S : Type ℓ} (fuel : ℕ) (visit : ℤ → S → S) (l : LinkList) (h : Heap) (a : ℕ) (cs : Cells)
    (s : S)
    → Holds l h a cs
    → length cs < fuel
    → (foreach fuel (some l) visit h s ≡ done (success, visit_all visit (values cs) s))
      × (foreach_reversingly fuel (some l) visit h s
          ≡ done (success, visit_back visit (values cs) s))
unfolding foreach foreach_reversingly
foreach-both fuel visit l h a cs s w e = (
  rw
      (
        w.head,
        load-cell h a (record { value = w.mark; next = first cs }) w.chain.0,
        visit_from-eq fuel visit h cs s w.chain.3 e,
      )
      refl,
  rw
      (
        w.head,
        load-cell h a (record { value = w.mark; next = first cs }) w.chain.0,
        visit_node-eq fuel visit h cs s w.chain.3 e,
      )
      refl,
)
