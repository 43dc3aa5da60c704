-- ===== src/BinTree/Shape.antt =====
-- The traversals visit the nodes in the order of their names, and the number of levels bounds the
-- number of nodes.
use code_snippet.Prelude.{
  ℕ, suc, ◌+◌, ◌^◌, ◌≤◌, ◌<◌, ◌≡◌, refl, List, [], ◌∷◌, ◌++◌, ℤ, visit_all, arith,
}
use Prim.Native.Nat.{max}
use native.Mathlib.Nat.{two-pow-succ, pow-le-pow_right}
use code_snippet.Stack.Lifo.{success, failure}
use code_snippet.BinTree.{Tree, null, node, destroy, preorder, inorder, postorder, level}

-- The values of a tree, in the three orders.
unfoldable pub preorder_list : Tree → List ℤ
preorder_list null = []
preorder_list (node x l r) = x ∷ (preorder_list l ++ preorder_list r)

unfoldable pub inorder_list : Tree → List ℤ
inorder_list null = []
inorder_list (node x l r) = inorder_list l ++ (x ∷ inorder_list r)

unfoldable pub postorder_list : Tree → List ℤ
postorder_list null = []
postorder_list (node x l r) = postorder_list l ++ (postorder_list r ++ (x ∷ []))

abbrev pub status : Tree → ℤ
status null = failure
status (node x l r) = success

visit_all-append {ℓ} :
    {S : Type ℓ} (visit : ℤ → S → S) (xs ys : List ℤ) (s : S)
    → visit_all visit (xs ++ ys) s ≡ visit_all visit ys (visit_all visit xs s)
visit_all-append visit [] ys s = refl
visit_all-append visit (x ∷ xs) ys s = visit_all-append visit xs ys (visit x s)

module _ {ℓ} {S : Type ℓ} (visit : ℤ → S → S) where
  preorder_state : (t : Tree) (s : S) → (preorder visit t s).1 ≡ visit_all visit (preorder_list t) s
  unfolding preorder preorder_list
  preorder_state null s = refl
  preorder_state (node x l r) s = simp (visit_all-append, preorder_state r, preorder_state l)

  inorder_state : (t : Tree) (s : S) → (inorder visit t s).1 ≡ visit_all visit (inorder_list t) s
  unfolding inorder inorder_list
  inorder_state null s = refl
  inorder_state (node x l r) s = simp (visit_all-append, inorder_state r, inorder_state l)

  postorder_state :
      (t : Tree) (s : S) → (postorder visit t s).1 ≡ visit_all visit (postorder_list t) s
  unfolding postorder postorder_list
  postorder_state null s = refl
  postorder_state (node x l r) s = simp (visit_all-append, postorder_state r, postorder_state l)

  preorder-status : (t : Tree) (s : S) → (preorder visit t s).0 ≡ status t
  unfolding preorder
  preorder-status null s = refl
  preorder-status (node x l r) s = refl

  inorder-status : (t : Tree) (s : S) → (inorder visit t s).0 ≡ status t
  unfolding inorder
  inorder-status null s = refl
  inorder-status (node x l r) s = refl

  postorder-status : (t : Tree) (s : S) → (postorder visit t s).0 ≡ status t
  unfolding postorder
  postorder-status null s = refl
  postorder-status (node x l r) s = refl

  -- Each traversal calls the callback once on every node, in its order, and returns -1 for the
  -- empty tree and else 0.
  pub traversals :
      (t : Tree) (s : S)
      → (preorder visit t s ≡ (status t, visit_all visit (preorder_list t) s))
        × (inorder visit t s ≡ (status t, visit_all visit (inorder_list t) s))
        × (postorder visit t s ≡ (status t, visit_all visit (postorder_list t) s))
  traversals t s = (
    cc (preorder-status t s, preorder_state t s),
    cc (inorder-status t s, inorder_state t s),
    cc (postorder-status t s, postorder_state t s),
  )

-- `bitree_destory` frees every node once, in postorder.
pub destroy-postorder : (t : Tree) → destroy t ≡ (status t, postorder_list t)
unfolding destroy postorder_list
destroy-postorder null = refl
destroy-postorder (node x l r) = rw (destroy-postorder l, destroy-postorder r)

pub size : Tree → ℕ
size null = 0
size (node x l r) = suc (size l + size r)

-- The longest path down, counted in nodes.
pub height : Tree → ℕ
height null = 0
height (node x l r) = suc (max (height l) (height r))

level-height : (t : Tree) → level t ≡ height t
unfolding level height
level-height null = refl
level-height (node x l r) = ground (arith, level-height l, level-height r)

level-le-size : (t : Tree) → level t ≤ size t
unfolding level size
level-le-size null = omega arith
level-le-size (node x l r) = ground (arith, level-le-size l, level-le-size r)

size-lt-pow : (t : Tree) → size t < 2 ^ height t
unfolding height size
size-lt-pow null = omega arith
size-lt-pow (node x l r) =
    let deepest : ℕ = max (height l) (height r) in
    let left = pow-le-pow_right {n = 2} (omega arith) {i = height l} {j = deepest} (omega arith) in
    let right = pow-le-pow_right {n = 2} (omega arith) {i = height r} {j = deepest} (omega arith) in
    omega (arith, left, right, two-pow-succ deepest, size-lt-pow l, size-lt-pow r)

-- `bitree_getlevel` is the height, and a tree of that many levels has fewer than `2 ^ level` nodes
-- and at least as many as levels.
pub level_bounds : (t : Tree) → (level t ≡ height t) × (size t < 2 ^ level t) × (level t ≤ size t)
level_bounds t = (level-height t, rw (level-height t) (size-lt-pow t), level-le-size t)
