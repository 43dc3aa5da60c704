-- ===== src/Exam/FindInMatrix.antt =====
-- exam/point_to_offer/0401_findInMatrix.c: the search from the upper right corner of a matrix
-- whose rows and columns are in order. `past` is one above the source's `column`; the index of an
-- element is an int, and `none` where it overflows.
use code_snippet.Prelude.{
  ℕ, zero, suc, ◌+◌, ◌-◌, ◌*◌, ◌^◌, ◌≡◌, ◌≢◌, ◌≤◌, ◌<◌, ◌⊎◌, inl, inr, refl, sym, ◌∙◌, eq_of_parts,
  Bool, at_or_above, at_or_below, true, false, ◌&&◌, Option, none, some, List, ℤ, pos, ◌≤ℤ◌, ◌<ℤ◌,
  ltb_ℤ, ltb, if◌then◌else◌, ◌>>=◌, length, arith, Bool-cases,
}
use native.Mathlib.Nat.{mul-le-mul_right}
use code_snippet.Prelude.Arrays.{get_elem?, get_or, get_elem?-get_or}

-- An index that is computed as an int.
abbrev pub int_index : ℕ → Option ℕ
int_index i = if ltb i (2 ^ 31) then some i else none

unfoldable pub search_from :
    (fuel : ℕ) → List ℤ → (rows columns : ℕ) → ℤ → (row past : ℕ) → Option Bool
search_from zero arr rows columns value row past = none
search_from (suc fuel) arr rows columns value row past =
    if ltb row rows && ltb 0 past
    then (int_index (row * columns + (past - 1)) >>= get_elem? arr >>= λ x.
        if ltb_ℤ value x
        then search_from fuel arr rows columns value row (past - 1)
        else if ltb_ℤ x value
        then search_from fuel arr rows columns value (row + 1) past
        else some true)
    else some false

-- `findInMatrix`; every turn of its loop leaves a row or a column.
unfoldable pub find_in_matrix : List ℤ → (rows columns : ℕ) → ℤ → Option Bool
find_in_matrix arr rows columns value =
    search_from (rows + columns + 1) arr rows columns value 0 columns

module _ (arr : List ℤ) (rows columns : ℕ) where
  abbrev pub at : ℕ → ℕ → ℤ
  at row column = get_or arr (row * columns + column) (pos 0)

  -- The rows and the columns are in order.
  pub record IsOrderedMatrix : Type 0 where
    pub along_row : (r c d : ℕ) → r < rows → c ≤ d → d < columns → at r c ≤ℤ at r d
    pub along_column : (r s c : ℕ) → r ≤ s → s < rows → c < columns → at r c ≤ℤ at s c

  pub index_lt : (r c : ℕ) → r < rows → c < columns → r * columns + c < rows * columns
  index_lt r c a b =
      let rows_below : (r + 1) * columns ≤ rows * columns =
        mul-le-mul_right columns (omega (arith, a)) in
      omega (arith, b, rows_below)

-- A place that a smaller open part leaves out is known already, or in the column or row just left.
beside_column :
    (r row c past : ℕ)
    → (r < row) ⊎ (past ≤ c)
    → ((r < row) ⊎ (suc past ≤ c)) ⊎ ((c ≡ past) × (row ≤ r))
beside_column r row c past (inl h) = inl (inl h)
beside_column r row c past (inr h) = elim (at_or_above c past h) [
  | inr beyond ↦ inl (inr (omega (arith, beyond)))
  | inl here ↦ elim (Bool-cases (ltb r row)) [
    | inl above ↦ inl (inl (ground (arith, above)))
    | inr below ↦ inr (here, ground (arith, below))
  ]
]

beside_row :
    (r row c past : ℕ)
    → (r < row + 1) ⊎ (past ≤ c)
    → ((r < row) ⊎ (past ≤ c)) ⊎ ((r ≡ row) × (c < past))
beside_row r row c past (inr h) = inl (inr h)
beside_row r row c past (inl h) = elim (at_or_below r row (omega (arith, h))) [
  | inl here ↦ elim (Bool-cases (ltb c past)) [
    | inl inside ↦ inr (here, ground (arith, inside))
    | inr outside ↦ inl (inr (ground (arith, outside)))
  ]
  | inr above ↦ elim (at_or_above row r (omega (arith, h))) [
    | inl same ↦ elim (Bool-cases (ltb c past)) [
      | inl inside ↦ inr (sym same, ground (arith, inside))
      | inr outside ↦ inl (inr (ground (arith, outside)))
    ]
    | inr under ↦ inl (inl (omega (arith, under)))
  ]
]

module _ (arr : List ℤ) (rows columns : ℕ) (value : ℤ) where
  abbrev cell : ℕ → ℕ → ℤ
  cell r c = at arr rows columns r c

  -- The answer of the search is right.
  abbrev pub IsAnswer : Bool → Type 0
  IsAnswer true = (r : ℕ) × (c : ℕ) × (r < rows) × (c < columns) × (cell r c ≡ value)
  IsAnswer false = (r c : ℕ) → r < rows → c < columns → cell r c ≢ value

  -- Neither a row that the search has left nor a column that it has left holds the value.
  abbrev IsLeft : ℕ → ℕ → Type 0
  IsLeft row past = (r c : ℕ) → r < rows → c < columns → (r < row) ⊎ (past ≤ c) → cell r c ≢ value

  less_differs : (x y : ℤ) → x <ℤ y → x ≢ y
  less_differs x y h e = absurd (omega (arith, rw e at h))

  leave_column :
      (row past : ℕ)
      → IsOrderedMatrix arr rows columns
      → value <ℤ cell row past
      → IsLeft row (suc past)
      → IsLeft row past
  leave_column row past o less gone r c r_in c_in w = elim (beside_column r row c past w) [
    | inl known ↦ gone r c r_in c_in known
    | inr here ↦ rw here.0 (λ e.
        less_differs value (cell r past)
          (omega (arith, less, o.along_column row r past here.1 r_in (omega (arith, c_in, here.0))))
          (sym e))
  ]

  leave_row :
      (row past : ℕ)
      → IsOrderedMatrix arr rows columns
      → past < columns
      → cell row past <ℤ value
      → IsLeft row (suc past)
      → IsLeft (row + 1) (suc past)
  leave_row row past o b less gone r c r_in c_in w = elim (beside_row r row c (suc past) w) [
    | inl known ↦ gone r c r_in c_in known
    | inr here ↦ rw here.0 (
        less_differs (cell row c) value (
          omega (
            arith,
            less,
            o.along_row row c past (omega (arith, r_in, here.0)) (omega (arith, here.1)) b,
          )))
  ]

  search_turn :
      (fuel row past : ℕ)
      → ltb row rows ≡ true
      → int_index (row * columns + past) ≡ some (row * columns + past)
      → get_elem? arr (row * columns + past) ≡ some (cell row past)
      → search_from (suc fuel) arr rows columns value row (suc past) ≡ (
          if ltb_ℤ value (cell row past)
          then search_from fuel arr rows columns value row past
          else if ltb_ℤ (cell row past) value
          then search_from fuel arr rows columns value (row + 1) (suc past)
          else some true)
  unfolding search_from
  search_turn fuel row past inside fits reads =
      let one_back : suc past - 1 ≡ past = omega arith in
      let open_ : ltb 0 (suc past) ≡ true = ground arith in
      rw (inside, open_, one_back, fits, reads) refl

  search_from-IsAnswer :
      (fuel row past : ℕ)
      → rows * columns ≤ length arr
      → rows * columns ≤ 2 ^ 31
      → IsOrderedMatrix arr rows columns
      → past ≤ columns
      → rows - row + past < fuel
      → IsLeft row past
      → (b : Bool) × (search_from fuel arr rows columns value row past ≡ some b) × IsAnswer b
  unfolding search_from
  search_from-IsAnswer zero row past s w o p f gone = absurd (omega (arith, f))
  search_from-IsAnswer (suc fuel) row zero s w o p f gone =
      (false, ground arith, λ r c a b. gone r c a b (inr (omega arith)))
  search_from-IsAnswer (suc fuel) row (suc past) s w o p f gone = elim (Bool-cases (ltb row rows)) [
    | inr all_left ↦
        (false, rw all_left refl, λ r c a b. gone r c a b (inl (ground (arith, a, all_left))))
    | inl inside ↦
        let row_in : row < rows = ground (arith, inside) in
        let reads : get_elem? arr (row * columns + past) ≡ some (cell row past) =
          get_elem?-get_or arr (row * columns + past) (pos 0)
            (omega (arith, s, index_lt arr rows columns row past row_in (omega (arith, p)))) in
        let fits : int_index (row * columns + past) ≡ some (row * columns + past) =
          ground (arith, w, index_lt arr rows columns row past row_in (omega (arith, p))) in
        let turn = search_turn fuel row past inside fits reads in
        elim (Bool-cases (ltb_ℤ value (cell row past))) [
          | inl less ↦
              let (b, runs, right) =
                search_from-IsAnswer fuel row past s w o (omega (arith, p)) (omega (arith, f))
                  (leave_column row past o (ground (arith, less)) gone) in
              (b, turn ∙ rw less runs, right)
          | inr not_less ↦ elim (Bool-cases (ltb_ℤ (cell row past) value)) [
            | inl more ↦
                let (b, runs, right) =
                  search_from-IsAnswer fuel (row + 1) (suc past) s w o p (omega (arith, f, row_in))
                    (leave_row row past o (omega (arith, p)) (ground (arith, more)) gone) in
                (b, turn ∙ rw (not_less, more) runs, right)
            | inr not_more ↦ (
              true,
              turn ∙ rw (not_less, not_more) refl,
              (
                row,
                past,
                row_in,
                omega (arith, p),
                eq_of_parts _ _ (ground (arith, not_less, not_more)),
              ),
            )
          ]
        ]
  ]

-- In a matrix of at most 2^31 elements whose rows and columns are in order, the search ends, no
-- index overflows, it reads no element outside of the matrix, and it finds the value exactly when
-- the matrix has it.
pub find_in_matrix-IsAnswer :
    (arr : List ℤ) (rows columns : ℕ) (value : ℤ)
    → rows * columns ≤ length arr
    → rows * columns ≤ 2 ^ 31
    → IsOrderedMatrix arr rows columns
    → (b : Bool) × (find_in_matrix arr rows columns value ≡ some b)
      × IsAnswer arr rows columns value b
unfolding find_in_matrix
find_in_matrix-IsAnswer arr rows columns value s w o =
    search_from-IsAnswer arr rows columns value (rows + columns + 1) 0 columns s w o (omega arith)
      (omega arith)
      (λ r c a b left. elim left [
        | inl none_above ↦ absurd (omega (arith, none_above))
        | inr beyond ↦ absurd (omega (arith, beyond, b))
      ])
