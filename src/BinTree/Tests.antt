-- ===== src/BinTree/Tests.antt =====
-- The tree that algorithm/tree/bitree/main.c builds, up to 5.
use code_snippet.Prelude.{◌≡◌, refl, true, some, List, ◌∷◌, ℤ, pos}
use code_snippet.BinTree.{Tree, null, node, init, level}

abbrev tree : Tree
tree =
    node (pos 1) (node (pos 2) (node (pos 4) null null) (node (pos 5) null null))
      (node (pos 3) null null)

init_runs : init (λ n. true) 6 1 5 ≡ some tree
unfolding init
init_runs = refl

level_runs : level tree ≡ 3
unfolding level
level_runs = refl

abbrev collect : ℤ → List ℤ → List ℤ
collect x seen = x ∷ seen
