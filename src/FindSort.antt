-- ===== src/FindSort.antt =====
-- algorithm/tree/app/findSort/main.c: search trees over the trees of bitree.c.
pub mod Order
pub mod Members
mod Tests
use code_snippet.Prelude.{
  ℕ, zero, suc, Bool, Option, none, some, List, [], ◌∷◌, ◌++◌, ℤ, ltb_ℤ, ◌==ℤ◌, if◌then◌else◌, true,
  false,
}
use code_snippet.BinTree.{Tree, null, node, leaf, inorder}

-- `insert_node`; `allocated` says whether a `malloc` of this call succeeds.
unfoldable pub insert : (allocated : Bool) → Tree → ℤ → Tree
insert allocated null x = leaf allocated x
insert allocated (node y l r) x =
    if ltb_ℤ x y
    then node y (insert allocated l x) r
    else if ltb_ℤ y x
    then node y l (insert allocated r x)
    else node y l r

-- `find`: the subtree at the node, or `null`.
unfoldable pub find : Tree → ℤ → Tree
find null x = null
find (node y l r) x = if x ==ℤ y then node y l r else if ltb_ℤ x y then find l x else find r x

-- The loop of `main` over the numbers read, each with the outcome of its `malloc`.
unfoldable pub build : List (Bool × ℤ) → Tree → Tree
build [] root = root
build ((allocated, x) ∷ xs) root = build xs (insert allocated root x)

-- `sort`, with a callback that collects what `print_data` prints.
unfoldable pub sort : Tree → List ℤ
sort root = (inorder (λ x printed. printed ++ (x ∷ [])) root []).1
