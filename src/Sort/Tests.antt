-- ===== src/Sort/Tests.antt =====
-- Runs of the sorts, and the theorems on them at four numbers of an array of five.
use code_snippet.Prelude.{◌≡◌, refl, some, List, [], ◌∷◌, ◌++◌, ℤ, pos, negsuc, arith}
use code_snippet.Sort.{insert_sort, insert_from, shift}
use code_snippet.Sort.Order.{IsSorted, occurrences, insert_sort-IsSorted}
use code_snippet.Sort.Quick.{quick_sort}
use code_snippet.Sort.Quick.Order.{IsSortedRange, quick_sort-IsSortedRange}

abbrev numbers : List ℤ
numbers = pos 3 ∷ negsuc 0 ∷ pos 7 ∷ pos 3 ∷ []

insert_sort_runs :
    insert_sort (numbers ++ (pos 0 ∷ [])) 4 ≡ some (negsuc 0 ∷ pos 3 ∷ pos 3 ∷ pos 7 ∷ pos 0 ∷ [])
unfolding insert_sort insert_from shift
insert_sort_runs = refl

insert_sort-IsSorted_example :
    (out : List ℤ) × (insert_sort (numbers ++ (pos 0 ∷ [])) 4 ≡ some (out ++ (pos 0 ∷ [])))
    × IsSorted out
    × ((v : ℤ) → occurrences v out ≡ occurrences v numbers)
insert_sort-IsSorted_example = insert_sort-IsSorted numbers (pos 0 ∷ [])

quick_sort-IsSortedRange_example :
    (out : List ℤ) × (quick_sort (numbers ++ (pos 0 ∷ [])) 4 ≡ some out)
    × IsSortedRange (numbers ++ (pos 0 ∷ [])) 0 4 out
quick_sort-IsSortedRange_example =
    quick_sort-IsSortedRange (numbers ++ (pos 0 ∷ [])) 4 (omega arith)
