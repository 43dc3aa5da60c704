-- ===== src/SeqList/Tests.antt =====
-- The theorem on list_delete at a list of two, and runs of the other calls.
use code_snippet.Prelude.{◌≡◌, ◌⊎◌, refl, true, false, some, List, [], ◌∷◌, ℤ, pos}
use code_snippet.Stack.Lifo.{success, failure}
use code_snippet.SeqList.{SeqList, insert, delete, search, index_from, modify}
use code_snippet.SeqList.Refine.{Holds, has, seq_delete-Holds}

abbrev two : SeqList
two = record { buf = pos 7 ∷ pos 8 ∷ pos 0 ∷ []; max = 3; top = 2 }

abbrev two_items : List ℤ
two_items = pos 7 ∷ pos 8 ∷ []

two-Holds : Holds two two_items
two-Holds = record { spare = pos 0 ∷ []; contents = refl; size = refl; room = refl }

seq_delete-Holds_example :
    ((has (pos 7) two_items ≡ true)
      × (l' : SeqList) × (delete (some two) (pos 7) ≡ some (success, some l'))
      × Holds l' (pos 8 ∷ []))
    ⊎ ((has (pos 7) two_items ≡ false) × (delete (some two) (pos 7) ≡ some (failure, some two)))
seq_delete-Holds_example = seq_delete-Holds two two_items (pos 7) two-Holds

seq_insert_runs :
    insert (some two) (pos 9)
    ≡ some (success, some (record { buf = pos 7 ∷ pos 8 ∷ pos 9 ∷ []; max = 3; top = 3 }))
unfolding insert
seq_insert_runs = refl

seq_search_runs : search (some two) (pos 8) ≡ some true
unfolding search index_from
seq_search_runs = refl

seq_modify_runs :
    modify (some two) (pos 8) (pos 9)
    ≡ some (success, some (record two { buf = pos 7 ∷ pos 9 ∷ pos 0 ∷ [] }))
unfolding modify index_from
seq_modify_runs = refl
