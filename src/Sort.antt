-- ===== src/Sort.antt =====
-- algorithm/sort/sort.c, on an array whose reads and writes out of bounds are `none`: swap,
-- insert_sort and bubble_sort; quick_sort is in Quick.
pub mod Quick
pub mod Bubble
pub mod Shift
pub mod Order
mod Tests
use code_snippet.Prelude.{
  ℕ, zero, suc, ◌+◌, ◌-◌, Option, none, some, List, ℤ, ltb_ℤ, ltb, Bool, true, false, if◌then◌else◌,
  ◌>>=◌,
}
use code_snippet.Prelude.Arrays.{get_elem?, store}

-- The inner loop from `j` down, and the write of `temp` after it.
unfoldable pub shift : List ℤ → ℤ → ℕ → Option (List ℤ)
shift arr temp zero = store arr 0 temp
shift arr temp (suc j) = do
  x ← get_elem? arr j
  if ltb_ℤ temp x
      then (store arr (suc j) x >>= λ moved. shift moved temp j)
      else store arr (suc j) temp

-- The outer loop, with `rounds` left of it.
unfoldable pub insert_from : (rounds : ℕ) → (i : ℕ) → List ℤ → Option (List ℤ)
insert_from zero i arr = some arr
insert_from (suc rounds) i arr = do
  temp ← get_elem? arr i
  arr' ← shift arr temp i
  insert_from rounds (i + 1) arr'

-- `insert_sort` of the first `n` elements.
unfoldable pub insert_sort : List ℤ → ℕ → Option (List ℤ)
insert_sort arr n = insert_from (n - 1) 1 arr

-- `swap`
unfoldable pub swap : List ℤ → ℕ → ℕ → Option (List ℤ)
swap arr i j = do tmp ← get_elem? arr i; x ← get_elem? arr j; arr₁ ← store arr i x; store arr₁ j tmp

-- The inner loop of `bubble_sort` from `j`: the array, and the flag.
unfoldable pub bubble_pass : (rounds : ℕ) → (j : ℕ) → List ℤ → Bool → Option (List ℤ × Bool)
bubble_pass zero j arr flag = some (arr, flag)
bubble_pass (suc rounds) j arr flag = do
  x ← get_elem? arr j
  y ← get_elem? arr (j + 1)
  if ltb_ℤ y x
      then (swap arr j (j + 1) >>= λ arr'. bubble_pass rounds (j + 1) arr' true)
      else bubble_pass rounds (j + 1) arr flag

-- The outer loop from `i`.
unfoldable pub bubble_from : (rounds : ℕ) → (i n : ℕ) → List ℤ → Option (List ℤ)
bubble_from zero i n arr = some arr
bubble_from (suc rounds) i n arr = do
  (arr', flag) ← bubble_pass (n - i - 1) 0 arr false
  if flag then bubble_from rounds (i + 1) n arr' else some arr'

unfoldable pub bubble_sort : List ℤ → ℕ → Option (List ℤ)
bubble_sort arr n = if ltb n 1 then some arr else bubble_from n 0 n arr
