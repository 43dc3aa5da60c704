-- ===== src/Exam/MatrixProduct.antt =====
-- exam/haier/matrixMultiplication.c: a matrix that counts up from `start`, times its transpose. The
-- results of `calloc` are arguments.
use code_snippet.Prelude.{
  ℕ, zero, suc, ◌+◌, ◌*◌, ◌≡◌, ◌≤◌, ◌<◌, ◌⊎◌, inl, inr, refl, ◌∙◌, Bool, true, false, Option-cases,
  Option, none, some, List, [], ◌∷◌, ℤ, pos, ◌+ℤ◌, ◌*ℤ◌, checked, length, if◌then◌else◌, Bool-cases,
  ltb, ltb→lt, length-replicate, replicate, ◌>>=◌, arith,
}
use code_snippet.Prelude.Arrays.{get_elem?, store, store-set, set, length-set}

module _ (columns : ℕ) where
  -- The inner loop of the filling from `j`: the array, and `start`.
  unfoldable pub fill_row : (i rounds j : ℕ) → List ℤ → ℤ → Option (List ℤ × ℤ)
  fill_row i zero j arr start = some (arr, start)
  fill_row i (suc rounds) j arr start = do
    arr' ← store arr (i * columns + j) start
    start' ← checked (start +ℤ pos 1)
    fill_row i rounds (j + 1) arr' start'

  unfoldable pub fill : (rounds i : ℕ) → List ℤ → ℤ → Option (List ℤ)
  unfolding fill_row
  fill zero i arr start = some arr
  fill (suc rounds) i arr start = do
    (arr', start') ← fill_row i columns 0 arr start
    fill rounds (i + 1) arr' start'

  module _ (rows : ℕ) (arr : List ℤ) where
    -- The loop over `k` for a cell of the result.
    unfoldable pub add_products : (i j rounds k : ℕ) → List ℤ → Option (List ℤ)
    add_products i j zero k result = some result
    add_products i j (suc rounds) k result = do
      a ← get_elem? arr (i * columns + k)
      b ← get_elem? arr (j * columns + k)
      p ← checked (a *ℤ b)
      r ← get_elem? result (i * rows + j)
      v ← checked (r +ℤ p)
      result' ← store result (i * rows + j) v
      add_products i j rounds (k + 1) result'

    unfoldable pub product_row : (i rounds j : ℕ) → List ℤ → Option (List ℤ)
    unfolding add_products
    product_row i zero j result = some result
    product_row i (suc rounds) j result = do
      result' ← add_products i j columns 0 result
      product_row i rounds (j + 1) result'

    unfoldable pub product_rows : (rounds i : ℕ) → List ℤ → Option (List ℤ)
    unfolding product_row
    product_rows zero i result = some result
    product_rows (suc rounds) i result = do
      result' ← product_row i rows 0 result
      product_rows rounds (i + 1) result'

-- A `calloc` that fails gives no number to write to.
abbrev pub memory : (calloc : Bool) → (n : ℕ) → List ℤ
memory calloc n = if calloc then replicate n (pos 0) else []

-- The result that is printed. Neither result of `calloc` is checked, and the first matrix has room
-- for rows + columns numbers.
unfoldable pub caculate :
    (calloc₀ calloc₁ : Bool) → (start : ℤ) → (rows columns : ℕ) → Option (List ℤ)
unfolding fill product_rows
caculate calloc₀ calloc₁ start rows columns = do
  arr ← fill columns rows 0 (memory calloc₀ (rows + columns)) start
  product_rows columns rows arr rows 0 (memory calloc₁ (rows * rows))

store-out : (xs : List ℤ) (i : ℕ) (v : ℤ) → length xs ≤ i → store xs i v ≡ none
store-out [] i v h = refl
store-out (x ∷ xs) zero v h = absurd (omega (arith, h))
store-out (x ∷ xs) (suc i) v h = rw (store-out xs i v (omega (arith, h))) refl

store-cases :
    (xs : List ℤ) (i : ℕ) (v : ℤ)
    → (store xs i v ≡ none)
      ⊎ ((ys : List ℤ) × (store xs i v ≡ some ys) × (length ys ≡ length xs) × (i < length xs))
store-cases xs i v = elim (Bool-cases (ltb i (length xs))) [
  | inl below ↦ inr (
    set xs i v,
    store-set xs i v (ltb→lt i (length xs) below),
    length-set xs i v,
    ltb→lt i (length xs) below,
  )
  | inr above ↦ inl (store-out xs i v (ground (arith, above)))
]

memory-short :
    (calloc : Bool) (rows columns : ℕ)
    → rows + columns < rows * columns
    → length (memory calloc (rows + columns)) < (0 + rows) * columns
memory-short true rows columns h = omega (arith, h, length-replicate (rows + columns) (pos 0))
memory-short false rows columns h = omega (arith, h)

module _ (columns : ℕ) where
  fill_row-cases :
      (i rounds j : ℕ) (arr : List ℤ) (start : ℤ)
      → (fill_row columns i rounds j arr start ≡ none)
        ⊎ ((arr' : List ℤ) × (start' : ℤ) × (fill_row columns i rounds j arr start
              ≡ some (arr', start'))
            × (length arr' ≡ length arr))
  unfolding fill_row
  fill_row-cases i zero j arr start = inr (arr, start, refl, refl)
  fill_row-cases i (suc rounds) j arr start = elim (store-cases arr (i * columns + j) start) [
    | inl out ↦ inl (rw (out, fill_row) refl)
    | inr (ys, stored, len, inside) ↦ elim (Option-cases (checked (start +ℤ pos 1))) [
      | inl over ↦ inl (rw (stored, over, fill_row) refl)
      | inr (start', up) ↦ elim (fill_row-cases i rounds (j + 1) ys start') [
        | inl later ↦ inl (rw (stored, up, fill_row) later)
        | inr (zs, s, later, len') ↦ inr (zs, s, rw (stored, up, fill_row) later, len' ∙ len)
      ]
    ]
  ]

  fill_row-overrun :
      (i rounds j : ℕ) (arr : List ℤ) (start : ℤ)
      → i * columns + j ≤ length arr
      → length arr < i * columns + j + rounds
      → fill_row columns i rounds j arr start ≡ none
  unfolding fill_row
  fill_row-overrun i zero j arr start low high = absurd (omega (arith, low, high))
  fill_row-overrun i (suc rounds) j arr start low high =
      elim (store-cases arr (i * columns + j) start) [
        | inl out ↦ rw (out, fill_row) refl
        | inr (ys, stored, len, inside) ↦ elim (Option-cases (checked (start +ℤ pos 1))) [
          | inl over ↦ rw (stored, over, fill_row) refl
          | inr (start', up) ↦
              rw (stored, up, fill_row)
                (fill_row-overrun i rounds (j + 1) ys start' (omega (arith, inside, len))
                  (omega (arith, high, len)))
        ]
      ]

  fill-overrun :
      (rounds i : ℕ) (arr : List ℤ) (start : ℤ)
      → i * columns ≤ length arr
      → length arr < (i + rounds) * columns
      → fill columns rounds i arr start ≡ none
  unfolding fill
  fill-overrun zero i arr start low high = absurd (omega (arith, low, high))
  fill-overrun (suc rounds) i arr start low high =
      elim (Bool-cases (ltb (length arr) ((i + 1) * columns))) [
        | inl short ↦
            rw
              (
                fill_row-overrun i columns 0 arr start (omega (arith, low))
                    (omega (arith, ltb→lt (length arr) ((i + 1) * columns) short)),
                fill,
              )
              refl
        | inr enough ↦ elim (fill_row-cases i columns 0 arr start) [
          | inl out ↦ rw (out, fill) refl
          | inr (ys, s, row, len) ↦
              rw (row, fill)
                (fill-overrun rounds (i + 1) ys s (ground (arith, enough, len))
                  (omega (arith, high, len)))
        ]
      ]

-- Where the matrix has more cells than it has rows and columns together, the program writes behind
-- its array, whatever the calls of `calloc` return.
pub caculate-overrun :
    (calloc₀ calloc₁ : Bool) (start : ℤ) (rows columns : ℕ)
    → rows + columns < rows * columns
    → caculate calloc₀ calloc₁ start rows columns ≡ none
unfolding caculate
caculate-overrun calloc₀ calloc₁ start rows columns h =
    rw
      (fill-overrun columns rows 0 (memory calloc₀ (rows + columns)) start (omega arith)
        (memory-short calloc₀ rows columns h))
      refl
