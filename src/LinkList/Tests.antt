-- ===== src/LinkList/Tests.antt =====
-- The theorems on single_linklist.c at a list of two.
use code_snippet.Prelude.{ℕ, ◌≡◌, refl, true, none, some, [], ◌∷◌, pos, ◌==◌, if◌then◌else◌, arith}
use code_snippet.Stack.Lifo.{success}
use code_snippet.Heap.{done, crash, Heap}
use code_snippet.Heap.Chains.{Cells, Apart, AreFree}
use code_snippet.LinkList.{LinkList, insert, delete, reverse, destroy}
use code_snippet.LinkList.Insert.{Holds, insert-Holds}
use code_snippet.LinkList.Delete.{delete-Holds, delete-missing, destroy-frees}
use code_snippet.LinkList.Reverse.{reverse-Holds}

abbrev nodes : Cells
nodes = (2, pos 8) ∷ (1, pos 7) ∷ []

-- The head node at 0, then 8 at 2, then 7 at 1.
abbrev heap : Heap
heap = record {
  cells = λ a.
      if a == 0
      then some (record { value = pos 0; next = some 2 })
      else if a == 1
      then some (record { value = pos 7; next = none })
      else if a == 2
      then some (record { value = pos 8; next = some 1 })
      else none;
  fresh = 3;
}

abbrev two : LinkList
two = record { head = some 0; len = pos 2; max = pos 3 }

abbrev full : LinkList
full = record { head = some 0; len = pos 2; max = pos 2 }

abbrev two-Holds : Holds two heap 0 nodes
two-Holds = record {
  head = refl;
  mark = pos 0;
  chain = (
    refl,
    omega arith,
    (refl, (refl, tt)),
    (refl, omega arith, (refl, tt), (refl, omega arith, tt, tt)),
  );
  size = refl;
}

abbrev full-Holds : Holds full heap 0 nodes
full-Holds = record { head = refl; mark = pos 0; chain = two-Holds.chain; size = refl }

insert-Holds_example :
    (l' : LinkList) × (h' : Heap) × (insert true (some two) (pos 9) heap
      ≡ done (success, some l', h'))
    × Holds l' h' 0 ((3, pos 9) ∷ nodes)
    × (l'.max ≡ pos 3)
insert-Holds_example = insert-Holds two heap 0 nodes (pos 9) two-Holds refl

delete-Holds_example :
    (l' : LinkList) × (h' : Heap) × (delete 3 (some two) (pos 8) heap ≡ done (success, some l', h'))
    × Holds l' h' 0 ((1, pos 7) ∷ [])
    × (h'.cells 2 ≡ none)
delete-Holds_example = delete-Holds 3 two heap 0 2 nodes (pos 8) two-Holds (omega arith) refl

delete-missing_example : delete 3 (some two) (pos 5) heap ≡ crash
delete-missing_example = delete-missing 3 two heap 0 nodes (pos 5) two-Holds (omega arith) refl

reverse-Holds_example :
    (h' : Heap) × (reverse 3 (some two) heap ≡ done (success, h'))
    × Holds two h' 0 ((1, pos 7) ∷ (2, pos 8) ∷ [])
reverse-Holds_example = reverse-Holds 3 two heap 0 nodes two-Holds (omega arith)

destroy-frees_example :
    (h' : Heap) × (destroy 4 (some two) heap ≡ done (success, h'))
    × AreFree h' ((0, pos 0) ∷ nodes)
    × ((b : ℕ) → Apart b ((0, pos 0) ∷ nodes) → h'.cells b ≡ heap.cells b)
destroy-frees_example = destroy-frees 4 two heap 0 nodes two-Holds (omega arith)
