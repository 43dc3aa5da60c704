-- ===== src/FindSort/Order.antt =====
-- The order of search trees, kept by `insert_node`.
use code_snippet.Prelude.{
  ◌≡◌, ap, ◌∙◌, sym, Bool, true, false, List, [], ◌∷◌, ◌++◌, append-nil, append_assoc, ℤ, ◌<ℤ◌, All,
  visit_all, arith,
}
use code_snippet.BinTree.{Tree, null, node, leaf}
use code_snippet.BinTree.Shape.{inorder_list, traversals}
use code_snippet.FindSort.{insert, build, sort}

-- Every value of the tree has the property.
abbrev pub Each : (ℤ → Type 0) → Tree → Type 0
Each P null = Unit
Each P (node x l r) = P x × Each P l × Each P r

abbrev pub Below : ℤ → Tree → Type 0
Below b t = Each (λ x. x <ℤ b) t

abbrev pub Above : ℤ → Tree → Type 0
Above b t = Each (λ x. b <ℤ x) t

abbrev pub IsOrdered : Tree → Type 0
IsOrdered null = Unit
IsOrdered (node x l r) = Below x l × Above x r × IsOrdered l × IsOrdered r

Each-insert :
    (P : ℤ → Type 0) (a : Bool) (t : Tree) (x : ℤ) → P x → Each P t → Each P (insert a t x)
unfolding insert leaf
Each-insert P true null x p h = (p, tt, tt)
Each-insert P false null x p h = tt
Each-insert P a (node y l r) x p h = ground (arith, Each-insert P a l x, Each-insert P a r x)

-- `insert_node` keeps a search tree a search tree, whether or not its `malloc` succeeds.
pub insert-IsOrdered : (a : Bool) (t : Tree) (x : ℤ) → IsOrdered t → IsOrdered (insert a t x)
unfolding insert leaf
insert-IsOrdered true null x o = (tt, tt, tt, tt)
insert-IsOrdered false null x o = tt
insert-IsOrdered a (node y l r) x o = ground (
  arith,
  insert-IsOrdered a l x,
  insert-IsOrdered a r x,
  Each-insert (λ z. z <ℤ y) a l x,
  Each-insert (λ z. y <ℤ z) a r x,
)

build-IsOrdered : (xs : List (Bool × ℤ)) (t : Tree) → IsOrdered t → IsOrdered (build xs t)
unfolding build
build-IsOrdered [] t o = o
build-IsOrdered ((a, x) ∷ xs) t o = build-IsOrdered xs (insert a t x) (insert-IsOrdered a t x o)

-- Each element is less than all that follow it.
abbrev pub IsAscending : List ℤ → Type 0
IsAscending [] = Unit
IsAscending (x ∷ xs) = All (λ y. x <ℤ y) xs × IsAscending xs

All-append : (P : ℤ → Type 0) (xs ys : List ℤ) → All P xs → All P ys → All P (xs ++ ys)
All-append P [] ys hx hy = hy
All-append P (x ∷ xs) ys hx hy = (hx.0, All-append P xs ys hx.1 hy)

All-inorder : (P : ℤ → Type 0) (t : Tree) → Each P t → All P (inorder_list t)
unfolding inorder_list
All-inorder P null h = tt
All-inorder P (node x l r) h =
    All-append P (inorder_list l) _ (All-inorder P l h.1) (h.0, All-inorder P r h.2)

All-trans : (x y : ℤ) (xs : List ℤ) → x <ℤ y → All (λ z. y <ℤ z) xs → All (λ z. x <ℤ z) xs
All-trans x y [] h a = tt
All-trans x y (z ∷ xs) h a = (omega arith, All-trans x y xs h a.1)

IsAscending-join :
    (x : ℤ) (xs ys : List ℤ)
    → All (λ y. y <ℤ x) xs
    → All (λ y. x <ℤ y) ys
    → IsAscending xs
    → IsAscending ys
    → IsAscending (xs ++ (x ∷ ys))
IsAscending-join x [] ys below above sx sy = (above, sy)
IsAscending-join x (z ∷ xs) ys below above sx sy = (
  All-append (λ y. z <ℤ y) xs (x ∷ ys) sx.0 (below.0, All-trans z x ys below.0 above),
  IsAscending-join x xs ys below.1 above sx.1 sy,
)

inorder-IsAscending : (t : Tree) → IsOrdered t → IsAscending (inorder_list t)
unfolding inorder_list
inorder-IsAscending null o = tt
inorder-IsAscending (node x l r) o =
    IsAscending-join x (inorder_list l) (inorder_list r) (All-inorder _ l o.0) (All-inorder _ r o.1)
      (inorder-IsAscending l o.2) (inorder-IsAscending r o.3)

collected : (xs ys : List ℤ) → visit_all (λ x printed. printed ++ (x ∷ [])) xs ys ≡ ys ++ xs
collected [] ys = sym (append-nil ys)
collected (x ∷ xs) ys = collected xs (ys ++ (x ∷ [])) ∙ append_assoc ys (x ∷ []) xs

pub sort-inorder : (t : Tree) → sort t ≡ inorder_list t
unfolding sort
sort-inorder t = ap (λ p. p.1) (traversals _ t []).1 ∙ collected (inorder_list t) []

-- For any numbers read, `sort` prints the tree in ascending order, each value once.
pub sort-IsAscending : (xs : List (Bool × ℤ)) → IsAscending (sort (build xs null))
sort-IsAscending xs =
    rw sort-inorder (inorder-IsAscending (build xs null) (build-IsOrdered xs null tt))
