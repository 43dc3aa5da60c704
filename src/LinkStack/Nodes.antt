-- ===== src/LinkStack/Nodes.antt =====
-- `stack_foreach` and `stack_destory`: every node once.
use code_snippet.Prelude.{ℕ, suc, ◌≡◌, ◌<◌, refl, some, ◌∷◌, ℤ, length, visit_all}
use code_snippet.Stack.Lifo.{success}
use code_snippet.Heap.{done, Heap}
use code_snippet.Heap.Chains.{Cells, first, values, Apart, AreFree, load-cell}
use code_snippet.LinkList.Delete.{free_from-eq}
use code_snippet.LinkList.Visit.{visit_from-eq}
use code_snippet.LinkStack.{LinkStack, destroy, foreach}
use code_snippet.LinkStack.Refine.{Holds}

-- With enough fuel, `stack_foreach` calls the callback on the values from the top down.
pub foreach-visit_values {ℓ} :
    {S : Type ℓ} (fuel : ℕ) (visit : ℤ → S → S) (cap : ℕ) (s : LinkStack) (h : Heap) (cs : Cells)
    (x : S)
    → Holds cap s h cs
    → length cs < fuel
    → foreach fuel (some s) visit h x ≡ done (success, visit_all visit (values cs) x)
unfolding foreach
foreach-visit_values fuel visit cap s h cs x w e =
    rw
      (
        w.top,
        load-cell h w.mark.0 (record { value = w.mark.1; next = first cs }) w.chain.0,
        visit_from-eq fuel visit h cs x w.chain.3 e,
      )
      refl

-- With enough fuel, `stack_destory` frees the head node and every node of the stack, each of
-- them once, and no other.
pub stack_destroy-frees :
    (fuel : ℕ) (cap : ℕ) (s : LinkStack) (h : Heap) (cs : Cells) (w : Holds cap s h cs)
    → suc (length cs) < fuel
    → (h' : Heap) × (destroy fuel (some s) h ≡ done (success, h'))
      × AreFree h' (w.mark ∷ cs)
      × ((b : ℕ) → Apart b (w.mark ∷ cs) → h'.cells b ≡ h.cells b)
unfolding destroy
stack_destroy-frees fuel cap s h cs w e =
    let (h', runs, free, kept) = free_from-eq fuel h (w.mark ∷ cs) w.chain e in
    (h', rw (w.top, runs) refl, free, kept)
