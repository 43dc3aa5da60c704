-- ===== src/FindSort/Tests.antt =====
-- The search trees on the numbers 5, 2, 8 and 5 again.
use code_snippet.Prelude.{◌≡◌, refl, Bool, true, false, List, [], ◌∷◌, ℤ, pos, negsuc, arith}
use code_snippet.BinTree.{Tree, null, node, leaf, inorder}
use code_snippet.FindSort.{insert, build, sort}
use code_snippet.FindSort.Order.{IsOrdered, IsAscending, sort-IsAscending}
use code_snippet.FindSort.Members.{contains, stored, contains-sort}

abbrev numbers : List (Bool × ℤ)
numbers = (true, pos 5) ∷ (true, negsuc 1) ∷ (false, pos 3) ∷ (true, pos 8) ∷ (true, pos 5) ∷ []

abbrev tree : Tree
tree = node (pos 5) (node (negsuc 1) null null) (node (pos 8) null null)

tree-IsOrdered : IsOrdered tree
tree-IsOrdered = omega arith

build_runs : build numbers null ≡ tree
unfolding build insert leaf
build_runs = refl

sort_runs : sort tree ≡ negsuc 1 ∷ pos 5 ∷ pos 8 ∷ []
unfolding sort inorder
sort_runs = refl

sort-IsAscending_example : IsAscending (sort (build numbers null))
sort-IsAscending_example = sort-IsAscending numbers

contains-sort_example :
    contains (pos 3) (sort (build numbers null)) ≡ contains (pos 3) (stored numbers)
contains-sort_example = contains-sort (pos 3) numbers
