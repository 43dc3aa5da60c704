-- ===== src/LinkStack/Refine.antt =====
-- The stack in the heap keeps the promise of a list of at most `cap` integers.
use code_snippet.Prelude.{
  ℕ, suc, ◌≡◌, refl, ap, ◌∙◌, Bool-cases, inl, inr, true, false, none, some, [], ◌∷◌, ℤ, pos, ◌+ℤ◌,
  ◌-ℤ◌, ◌==◌, length, pos_add_one, pos_sub_one, arith,
}
use code_snippet.Stack.Lifo
use code_snippet.Stack.Lifo.{success, failure}
use code_snippet.Heap.{done, Heap, put, node_alloc, load, store, node_free}
use code_snippet.Heap.Chains.{Cells, first, values, IsChain, put-IsChain}
use code_snippet.LinkList.Insert.{inserted, inserted-IsChain}
use code_snippet.LinkStack.{LinkStack, is_empty, is_full, link, push, unlink, pop}

-- The stack has the nodes `cs` behind a head node, the top first.
pub record Holds (cap : ℕ) (s : LinkStack) (h : Heap) (cs : Cells) : Type 0 where
  pub mark : ℕ × ℤ
  pub top : s.top ≡ some mark.0
  pub chain : IsChain h (mark ∷ cs)
  pub size : s.len ≡ pos (length cs)
  pub bound : s.max ≡ pos cap

length-values : (cs : Cells) → length (values cs) ≡ length cs
length-values [] = refl
length-values (c ∷ cs) = ap suc (length-values cs)

link-eq :
    (s : LinkStack) (h : Heap) (p : ℕ × ℤ) (v : ℤ) (cs : Cells)
    → s.top ≡ some p.0
    → IsChain h (p ∷ cs)
    → link s h.fresh (node_alloc true v h).1
      ≡ done (success, some (record s { len = s.len +ℤ pos 1 }), inserted p.0 p.1 cs v h)
unfolding link put node_alloc load store
link-eq s h p v cs e (at_p, old, apart, c) = ground arith

unlink-eq :
    (s : LinkStack) (h : Heap) (p x : ℕ × ℤ) (v : ℤ) (cs : Cells)
    → s.top ≡ some p.0
    → IsChain h (p ∷ x ∷ cs)
    → unlink s (some v) h
      ≡ done (
        success,
        some x.1,
        some (record s { len = s.len -ℤ pos 1 }),
        put x.0 none (put p.0 (some (record { value = p.1; next = first cs })) h),
      )
unfolding unlink put load store node_free
unlink-eq s h p x v cs e c = ground arith

unlinked-IsChain :
    (h : Heap) (p x : ℕ × ℤ) (cs : Cells)
    → IsChain h (p ∷ x ∷ cs)
    → IsChain (put x.0 none (put p.0 (some (record { value = p.1; next = first cs })) h)) (p ∷ cs)
unfolding put
unlinked-IsChain h p x cs c = ground (
  arith,
  put-IsChain h p.0 (some (record { value = p.1; next = first cs })) cs c.3.3 c.2.1,
  put-IsChain (put p.0 (some (record { value = p.1; next = first cs })) h) x.0 none cs,
)

is_full-Holds :
    (cap : ℕ) (s : LinkStack) (h : Heap) (cs : Cells)
    → Holds cap s h cs
    → is_full s ≡ (length (values cs) == cap)
unfolding is_full
is_full-Holds cap s h cs w = rw (w.size, w.bound, length-values cs) (ground arith)

-- With memory, `stack_push` returns the status of a push to a list of at most `cap` integers, and
-- leaves the values of that list in the nodes.
pub push-Lifo :
    (cap : ℕ) (s : LinkStack) (h : Heap) (cs : Cells) (v : ℤ)
    → Holds cap s h cs
    → (t : LinkStack) × (h' : Heap) × (cs' : Cells) × (push true (some s) v h
        ≡ done ((Lifo.push cap (values cs) v).0, some t, h'))
      × Holds cap t h' cs'
      × (values cs' ≡ (Lifo.push cap (values cs) v).1)
unfolding push
push-Lifo cap s h cs v w = elim (Bool-cases (length (values cs) == cap)) [
  | inl full ↦ rw (is_full-Holds cap s h cs w, full) (s, h, cs, refl, w, refl)
  | inr room ↦
      rw (is_full-Holds cap s h cs w, room)
        (
          record s { len = s.len +ℤ pos 1 },
          inserted w.mark.0 w.mark.1 cs v h,
          (h.fresh, v) ∷ cs,
          link-eq s h w.mark v cs w.top w.chain,
          record {
            mark = w.mark;
            top = w.top;
            chain = inserted-IsChain h w.mark.0 w.mark.1 v cs w.chain;
            size = ap (λ n. n +ℤ pos 1) w.size ∙ pos_add_one (length cs);
            bound = w.bound;
          },
          refl,
        )
]

-- `stack_pop` returns the status of a pop from that list, with its value in `*data`, leaves the
-- values of that list in the nodes, and reads no node that is gone.
pub pop-Lifo :
    (cap : ℕ) (s : LinkStack) (h : Heap) (cs : Cells) (old : ℤ)
    → Holds cap s h cs
    → (t : LinkStack) × (h' : Heap) × (cs' : Cells) × (pop (some s) (some old) h
        ≡ done ((Lifo.pop (values cs) old).0, some (Lifo.pop (values cs) old).1, some t, h'))
      × Holds cap t h' cs'
      × (values cs' ≡ (Lifo.pop (values cs) old).2)
unfolding pop is_empty
pop-Lifo cap s h [] old w = (s, h, [], rw w.size refl, w, refl)
pop-Lifo cap s h (x ∷ cs) old w =
    let some_left : is_empty s ≡ false = rw w.size (ground arith) in
    (
      record s { len = s.len -ℤ pos 1 },
      put x.0 none (put w.mark.0 (some (record { value = w.mark.1; next = first cs })) h),
      cs,
      rw some_left (unlink-eq s h w.mark x old cs w.top w.chain),
      record {
        mark = w.mark;
        top = w.top;
        chain = unlinked-IsChain h w.mark x cs w.chain;
        size = ap (λ n. n -ℤ pos 1) w.size ∙ pos_sub_one (length cs);
        bound = w.bound;
      },
      refl,
    )
