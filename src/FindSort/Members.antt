-- ===== src/FindSort/Members.antt =====
-- Which numbers a search tree holds, and how `find` tells.
use code_snippet.Prelude.{
  ◌≡◌, refl, sym, ==ℤ_iff, Bool, true, false, ◌||◌, List, [], ◌∷◌, ◌++◌, ℤ, ltb_ℤ, ◌==ℤ◌, arith,
  Bool-cases, inl, inr, if◌then◌else◌,
}
use code_snippet.BinTree.{Tree, null, node, leaf}
use code_snippet.BinTree.Shape.{inorder_list}
use code_snippet.FindSort.{insert, find, build, sort}
use code_snippet.FindSort.Order.{Each, Below, Above, IsOrdered, sort-inorder}

unfoldable pub has : ℤ → Tree → Bool
has x null = false
has x (node y l r) = x ==ℤ y || has x l || has x r

or-false : (b : Bool) → (b || false) ≡ b
or-false b = ground arith

unfoldable pub contains : ℤ → List ℤ → Bool
contains x [] = false
contains x (y ∷ ys) = x ==ℤ y || contains x ys

-- After `insert_node` the tree holds what it held and, if the `malloc` succeeds, the new number;
-- if it fails, the tree is as before.
pub has-insert :
    (x y : ℤ) (t : Tree)
    → (has y (insert true t x) ≡ ((y ==ℤ x) || has y t)) × (insert false t x ≡ t)
unfolding has insert leaf
has-insert x y null = (ground arith, refl)
has-insert x y (node z l r) = ground (arith, has-insert x y l, has-insert x y r)

Each-imp : {P Q : ℤ → Type 0} → ((z : ℤ) → P z → Q z) → (t : Tree) → Each P t → Each Q t
Each-imp f null h = tt
Each-imp f (node z l r) h = (f z h.0, Each-imp f l h.1, Each-imp f r h.2)

absent : (x : ℤ) (t : Tree) → Each (λ z. (x ==ℤ z) ≡ false) t → has x t ≡ false
unfolding has
absent x null h = refl
absent x (node z l r) h = rw (h.0, absent x l h.1, absent x r h.2)

absent_left : (x y : ℤ) (l : Tree) → Below y l → ltb_ℤ x y ≡ false → has x l ≡ false
absent_left x y l below h = absent x l (Each-imp (λ z less. ground arith) l below)

absent_right : (x y : ℤ) (r : Tree) → Above y r → ltb_ℤ x y ≡ true → has x r ≡ false
absent_right x y r above h = absent x r (Each-imp (λ z less. ground arith) r above)

-- What `find` returns.
abbrev pub Found : ℤ → Bool → Tree → Type 0
Found x held null = held ≡ false
Found x held (node y l r) = (y ≡ x) × (held ≡ true)

-- In a search tree `find` returns a node that holds the number if the tree holds it, and else NULL.
pub find-has : (t : Tree) (x : ℤ) → IsOrdered t → Found x (has x t) (find t x)
unfolding find has
find-has null x o = refl
find-has (node y l r) x o = elim (Bool-cases (x ==ℤ y)) [
  | inl hit ↦ rw hit (sym ((==ℤ_iff x y).0 hit), refl)
  | inr miss ↦ rw miss (elim (Bool-cases (ltb_ℤ x y)) [
    | inl left ↦ rw (left, absent_right x y r o.1 left, or-false (has x l)) (find-has l x o.2)
    | inr right ↦ rw (right, absent_left x y l o.0 right) (find-has r x o.3)
  ])
]

or_assoc : (a b c : Bool) → ((a || b) || c) ≡ (a || (b || c))
or_assoc a b c = ground arith

contains-append :
    (x : ℤ) (xs ys : List ℤ) → contains x (xs ++ ys) ≡ (contains x xs || contains x ys)
unfolding contains
contains-append x [] ys = refl
contains-append x (y ∷ xs) ys = ground (arith, contains-append x xs ys)

contains-inorder : (x : ℤ) (t : Tree) → contains x (inorder_list t) ≡ has x t
unfolding contains has inorder_list
contains-inorder x null = refl
contains-inorder x (node y l r) = ground (
  arith,
  contains-append x (inorder_list l) (y ∷ inorder_list r),
  contains-inorder x l,
  contains-inorder x r,
)

-- The numbers read whose `malloc` succeeded.
unfoldable pub stored : List (Bool × ℤ) → List ℤ
stored [] = []
stored ((allocated, x) ∷ xs) = if allocated then x ∷ stored xs else stored xs

has-build :
    (x : ℤ) (xs : List (Bool × ℤ)) (t : Tree)
    → has x (build xs t) ≡ (contains x (stored xs) || has x t)
unfolding build stored contains
has-build x [] t = refl
has-build x ((true, y) ∷ xs) t = ground (arith, has-build x xs (insert true t y), has-insert y x t)
has-build x ((false, y) ∷ xs) t =
    ground (arith, has-build x xs (insert false t y), has-insert y x t)

-- `sort` prints exactly the numbers read, save those whose `malloc` failed.
pub contains-sort :
    (x : ℤ) (xs : List (Bool × ℤ)) → contains x (sort (build xs null)) ≡ contains x (stored xs)
contains-sort x xs =
    rw (sort-inorder, contains-inorder, has-build) (unfold has in or-false (contains x (stored xs)))
