-- ===== src/Exam/Tests.antt =====
-- The theorems on the programs at small arrays.
use code_snippet.Prelude.{
  negsuc, ℕ, zero, suc, ◌+◌, ◌≡◌, ◌≤◌, ◌<◌, ◌⊎◌, refl, Bool, true, ◌+ℤ◌, ◌*ℤ◌, some, List, [], ◌∷◌,
  ◌++◌, ℤ, pos, arith,
}
use code_snippet.Sort.Order.{IsSorted, occurrences}
use code_snippet.Exam.FindInMatrix.{
  at, IsOrderedMatrix, find_in_matrix, IsAnswer, find_in_matrix-IsAnswer,
}
use code_snippet.Exam.MergeArray.{merge_array, merge_array-IsSorted}
use code_snippet.Exam.InPlace
use code_snippet.Exam.MatrixProduct.{caculate}
use code_snippet.Exam.InPlace.Swaps.{IsIndexed}
use code_snippet.Exam.InPlace.Decides.{duplicate-decides}
use code_snippet.Exam.Duplicate.{duplicate, duplicate-finds}

abbrev matrix : List ℤ
matrix = pos 1 ∷ pos 2 ∷ pos 2 ∷ pos 3 ∷ []

matrix_cell : (r c : ℕ) → r < 2 → c < 2 → at matrix 2 2 r c ≡ pos (r + c + 1)
matrix_cell zero zero h k = refl
matrix_cell zero (suc zero) h k = refl
matrix_cell (suc zero) zero h k = refl
matrix_cell (suc zero) (suc zero) h k = refl
matrix_cell (suc (suc r)) c h k = absurd (omega (arith, h))
matrix_cell zero (suc (suc c)) h k = absurd (omega (arith, k))
matrix_cell (suc zero) (suc (suc c)) h k = absurd (omega (arith, k))

matrix-IsOrderedMatrix : IsOrderedMatrix matrix 2 2
matrix-IsOrderedMatrix = record {
  along_row = λ r c d a b e.
      rw (matrix_cell r c a (omega (arith, b, e)), matrix_cell r d a e) (omega (arith, b));
  along_column = λ r s c a b e.
      rw (matrix_cell r c (omega (arith, a, b)) e, matrix_cell s c b e) (omega (arith, a));
}

find_in_matrix-IsAnswer_example :
    (b : Bool) × (find_in_matrix matrix 2 2 (pos 2) ≡ some b) × IsAnswer matrix 2 2 (pos 2) b
find_in_matrix-IsAnswer_example =
    find_in_matrix-IsAnswer matrix 2 2 (pos 2) (omega arith) (omega arith) matrix-IsOrderedMatrix

merge_array-IsSorted_example :
    (out : List ℤ) × (merge_array (pos 1 ∷ pos 4 ∷ pos 0 ∷ pos 0 ∷ []) 2 (pos 2 ∷ pos 4 ∷ []) 2
      ≡ some (out ++ []))
    × IsSorted out
    × ((v : ℤ)
        → occurrences v out
          ≡ occurrences v (pos 1 ∷ pos 4 ∷ []) + occurrences v (pos 2 ∷ pos 4 ∷ []))
merge_array-IsSorted_example =
    merge_array-IsSorted (pos 1 ∷ pos 4 ∷ []) (pos 2 ∷ pos 4 ∷ []) (pos 0 ∷ pos 0 ∷ []) [] []
      ((omega arith, tt), (tt, tt)) ((omega arith, tt), (tt, tt)) refl

duplicate-finds_example :
    (v : ℕ) × (duplicate (pos 3 ∷ pos 1 ∷ pos 3 ∷ pos 2 ∷ []) 4 ≡ some (pos v))
    × (2 ≤ occurrences (pos v) (pos 3 ∷ pos 1 ∷ pos 3 ∷ pos 2 ∷ []))
duplicate-finds_example = duplicate-finds (pos 3 ∷ pos 1 ∷ pos 3 ∷ pos 2 ∷ []) [] (omega arith) (
  (omega arith, omega arith),
  ((omega arith, omega arith), ((omega arith, omega arith), ((omega arith, omega arith), tt))),
)

abbrev doubled : List ℤ
doubled = pos 2 ∷ pos 0 ∷ pos 2 ∷ []

doubled-IsIndexed : IsIndexed doubled
doubled-IsIndexed zero h = (2, refl, omega arith)
doubled-IsIndexed (suc zero) h = (0, refl, omega arith)
doubled-IsIndexed (suc (suc zero)) h = (2, refl, omega arith)
doubled-IsIndexed (suc (suc (suc k))) h = absurd (omega (arith, h))

duplicate-decides_example :
    (r : ℤ) × (out : List ℤ) × (InPlace.duplicate doubled 3 ≡ some (r, out))
    × ((v : ℤ) → occurrences v out ≡ occurrences v doubled)
    × (((v : ℕ) × (r ≡ pos v) × (2 ≤ occurrences (pos v) doubled))
        ⊎ ((r ≡ negsuc 0) × ((v : ℤ) → occurrences v doubled ≤ 1)))
duplicate-decides_example = duplicate-decides doubled doubled-IsIndexed

-- The two rows of `main`.
caculate_two_rows : caculate true true (pos 1) 2 2 ≡ some (pos 5 ∷ pos 11 ∷ pos 11 ∷ pos 25 ∷ [])
unfolding caculate ◌+ℤ◌ ◌*ℤ◌
caculate_two_rows = refl
