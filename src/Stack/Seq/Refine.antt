-- ===== src/Stack/Seq/Refine.antt =====
-- A stack of seqstack.c holds a list, and each call does to it what `Lifo` says.
use code_snippet.Prelude.{
  ℕ, zero, suc, ◌+◌, ◌-◌, ◌≤◌, ◌<◌, ◌≡◌, refl, ap, ap₂, ◌≢◌, Bool, true, false, Option, none, some,
  List, [], ◌∷◌, ℤ, pos, length, replicate, length-replicate, visit_all, ◌==◌, arith, Bool-cases,
  Option-cases, ◌⊎◌, inl, inr,
}
use code_snippet.Prelude.Arrays.{
  get_or, set, store-set, get_elem?-get_or, length-set, get_or-set_self, get_or-set_ne,
}
use code_snippet.Stack.Lifo
use code_snippet.Stack.Lifo.{success, failure}
use code_snippet.Stack.Seq.{Stack, Ptr, init, is_empty, is_full, push, pop, visit_down, foreach}

-- The first `n` elements of the array, the last one first.
abbrev pub elems : List ℤ → ℕ → List ℤ
elems buf zero = []
elems buf (suc n) = get_or buf n (pos 0) ∷ elems buf n

length-elems : (buf : List ℤ) (n : ℕ) → length (elems buf n) ≡ n
length-elems buf zero = refl
length-elems buf (suc n) = ap suc (length-elems buf n)

elems-set : (buf : List ℤ) (n i : ℕ) (v : ℤ) → n ≤ i → elems (set buf i v) n ≡ elems buf n
elems-set buf zero i v h = refl
elems-set buf (suc n) i v h =
    ap₂ ◌∷◌ (get_or-set_ne buf i n v (pos 0) (omega arith)) (elems-set buf n i v (omega arith))

-- The pointer is to a stack of capacity `cap` that holds `xs`.
pub record Rep (cap : ℕ) (s : Stack) (xs : List ℤ) : Type 0 where
  pub size : s.max ≡ cap
  pub storage : cap ≤ length s.buf
  pub bound : s.top ≤ cap
  pub contents : elems s.buf s.top ≡ xs

abbrev pub Holds : ℕ → Ptr → List ℤ → Type 0
Holds cap none xs = ⊥
Holds cap (some s) xs = Rep cap s xs

pub length-top : {cap : ℕ} {s : Stack} {xs : List ℤ} → Rep cap s xs → s.top ≡ length xs
length-top {s} r = ground (arith, r.contents, length-elems s.buf s.top)

elems_pred :
    (buf : List ℤ) (n : ℕ) → n ≢ 0 → elems buf n ≡ get_or buf (n - 1) (pos 0) ∷ elems buf (n - 1)
elems_pred buf zero h = absurd (h refl)
elems_pred buf (suc n) h = ap (λ k. get_or buf k (pos 0) ∷ elems buf k) (omega arith)

elems_snoc :
    (buf : List ℤ) (n : ℕ) (v : ℤ) (xs : List ℤ)
    → n < length buf
    → elems buf n ≡ xs
    → elems (set buf n v) (n + 1) ≡ v ∷ xs
elems_snoc buf n v xs h e =
    ground (
      arith,
      elems_pred (set buf n v) (n + 1),
      get_or-set_self buf n v (pos 0),
      elems-set buf n n v,
    )

-- `stack_push` returns 0 and puts the value on top while there is room, and else returns -1 and
-- leaves the stack as it is.
pub push_refines :
    (cap : ℕ) (p : Ptr) (xs : List ℤ) (v : ℤ)
    → Holds cap p xs
    → (t : Ptr) × (push p v ≡ some ((Lifo.push cap xs v).0, t)) × Holds cap t (Lifo.push cap xs v).1
unfolding push
push_refines cap none xs v h = absurd h
push_refines cap (some s) xs v r = elim (Bool-cases (length xs == cap)) [
  | inl full ↦ rw full (some s, ground (arith, length-top r), r)
  | inr room ↦ rw room (
    some (record s { buf = set s.buf s.top v; top = s.top + 1 }),
    ground (arith, length-top r, store-set s.buf s.top v),
    record {
      size = r.size;
      storage = ground (arith, length-set s.buf s.top v);
      bound = ground (arith, length-top r);
      contents = ground (arith, elems_snoc s.buf s.top v xs, length-top r);
    },
  )
]

-- `stack_pop` takes the value on top into `*data` and returns 0, and on an empty stack returns -1
-- and changes nothing.
pub pop_refines :
    (cap : ℕ) (p : Ptr) (xs : List ℤ) (old : ℤ)
    → Holds cap p xs
    → (t : Ptr) × (pop p (some old) ≡ some ((Lifo.pop xs old).0, some (Lifo.pop xs old).1, t))
      × Holds cap t (Lifo.pop xs old).2
unfolding pop
pop_refines cap none xs old h = absurd h
pop_refines cap (some s) [] old r = (some s, ground (arith, length-top r), r)
pop_refines cap (some s) (x ∷ xs) old r = (
  some (record s { top = s.top - 1 }),
  ground (arith, length-top r, elems_pred s.buf s.top, get_elem?-get_or s.buf (s.top - 1) (pos 0)),
  record {
    size = r.size;
    storage = r.storage;
    bound = ground (arith, length-top r);
    contents = ground (arith, length-top r, elems_pred s.buf s.top);
  },
)

-- `stack_isempty` is 1 exactly when the stack holds nothing.
pub is_empty_refines :
    (cap : ℕ) (p : Ptr) (xs : List ℤ) → Holds cap p xs → is_empty p ≡ some (Lifo.is_empty xs)
unfolding is_empty
is_empty_refines cap none xs h = absurd h
is_empty_refines cap (some s) [] r = ground (arith, length-top r)
is_empty_refines cap (some s) (x ∷ xs) r = ground (arith, length-top r)

-- `stack_isfull` is 1 exactly when the stack holds `cap` integers.
pub is_full-length :
    (cap : ℕ) (p : Ptr) (xs : List ℤ) → Holds cap p xs → is_full p ≡ some (length xs == cap)
unfolding is_full
is_full-length cap none xs h = absurd h
is_full-length cap (some s) xs r = ground (arith, length-top r)

visit_down-elems {ℓ} :
    {S : Type ℓ} (visit : ℤ → S → S) (buf : List ℤ) (n : ℕ) (s : S)
    → n ≤ length buf
    → visit_down visit buf n s ≡ some (visit_all visit (elems buf n) s)
unfolding visit_down
visit_down-elems visit buf zero s h = refl
visit_down-elems visit buf (suc n) s h =
    rw (get_elem?-get_or buf n (pos 0) (omega arith)) (visit_down-elems visit buf n _ (omega arith))

-- `stack_foreach` calls the callback on every integer once, from the top down, and returns 0.
pub foreach-visit_all {ℓ} :
    {S : Type ℓ} (cap : ℕ) (p : Ptr) (xs : List ℤ) (visit : ℤ → S → S) (s : S)
    → Holds cap p xs
    → foreach p (some visit) s ≡ some (success, visit_all visit xs s)
unfolding foreach
foreach-visit_all cap none xs visit s h = absurd h
foreach-visit_all cap (some p) xs visit s r =
    rw (visit_down-elems visit p.buf p.top s (omega (arith, r.bound, r.storage)), r.contents)

-- `stack_init` gives NULL when `malloc` or `calloc` fails, and else an empty stack of capacity
-- `max`. What is relied on of `calloc max` is that it is NULL or an array of `max` zeros.
pub init_empty :
    (allocated : Bool) (calloc : ℕ → Option (List ℤ)) (max : ℕ)
    → ((b : List ℤ) → calloc max ≡ some b → b ≡ replicate max (pos 0))
    → ((init allocated calloc max ≡ none) × ((allocated ≡ false) ⊎ (calloc max ≡ none)))
      ⊎ (Holds max (init allocated calloc max) [] × (allocated ≡ true))
unfolding init
init_empty false calloc max zeroed = inl (refl, inl refl)
init_empty true calloc max zeroed = elim (Option-cases (calloc max)) [
  | inl e ↦ inl (rw e, inr e)
  | inr (b, e) ↦ rw e (
      inr (
        record {
          size = refl;
          storage = rw (zeroed b e, length-replicate max (pos 0)) (omega arith);
          bound = omega arith;
          contents = refl;
        },
        refl,
      ))
]
