-- ===== src/BinTree.antt =====
-- algorithm/tree/bitree/bitree.c: binary trees of integers. A tree owns its nodes, so a pointer to
-- a node is the subtree below it, and NULL is `null`. The outcome of `malloc` is an argument.
pub mod Shape
mod Tests
use code_snippet.Prelude.{
  ℕ, zero, suc, ◌+◌, ◌*◌, ◌^◌, Bool, Option, none, some, List, [], ◌∷◌, ◌++◌, ℤ, pos, leb, ltb,
  ◌>>=◌, if◌then◌else◌, true, false,
}
use code_snippet.Stack.Lifo.{success, failure}

pub data Tree : Type 0 where
  null : Tree
  node : ℤ → Tree → Tree → Tree

-- `bitnode_alloc`
unfoldable pub leaf : (allocated : Bool) → ℤ → Tree
leaf allocated x = if allocated then node x null null else null

-- `bitree_init` on fuel. The recursive calls go from `start` to other values each time, so that
-- `alloc start` says whether the `malloc` of the call for `start` succeeds. The product
-- `start * 2` must fit an `int`; without fuel, and on overflow, there is no result.
unfoldable pub init : (alloc : ℕ → Bool) → ℕ → ℕ → ℕ → Option Tree
init alloc zero start end = none
init alloc (suc fuel) start end =
    if ltb end start
    then some null
    else if alloc start
    then (do
      left ← (if leb (2 ^ 31) (start * 2) then none else init alloc fuel (start * 2) end)
      right ← (if leb (2 ^ 31) (start * 2 + 1) then none else init alloc fuel (start * 2 + 1) end)
      some (node (pos start) left right))
    else some null

-- `bitree_destory`: the status, and the nodes in the order in which they are freed.
unfoldable pub destroy : Tree → ℤ × List ℤ
destroy null = (failure, [])
destroy (node x l r) =
    let (_, freed_left) = destroy l in
    let (_, freed_right) = destroy r in (success, freed_left ++ (freed_right ++ (x ∷ [])))

-- The traversals, with a callback that changes a state.
module _ {ℓ} {S : Type ℓ} (visit : ℤ → S → S) where
  unfoldable pub preorder : Tree → S → ℤ × S
  preorder null s = (failure, s)
  preorder (node x l r) s =
      let (_, s') = preorder l (visit x s) in let (_, s'') = preorder r s' in (success, s'')

  unfoldable pub inorder : Tree → S → ℤ × S
  inorder null s = (failure, s)
  inorder (node x l r) s =
      let (_, s') = inorder l s in let (_, s'') = inorder r (visit x s') in (success, s'')

  unfoldable pub postorder : Tree → S → ℤ × S
  postorder null s = (failure, s)
  postorder (node x l r) s =
      let (_, s') = postorder l s in let (_, s'') = postorder r s' in (success, visit x s'')

-- `bitree_getlevel`
unfoldable pub level : Tree → ℕ
level null = 0
level (node x l r) =
    let left = level l in let right = level r in if ltb right left then left + 1 else right + 1
