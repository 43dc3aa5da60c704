-- ===== src/Sort/Quick.antt =====
-- algorithm/sort/sort.c: quick_sort. The end of a range is one above the source's `high`, so that
-- it stays a natural number; the loops that are not a count down take fuel.
pub mod Order
pub mod Partition
pub mod Round
pub mod Scan
use code_snippet.Prelude.{
  ℕ, zero, suc, ◌+◌, ◌-◌, Option, none, some, List, ℤ, ltb_ℤ, ltb, leb, not, if◌then◌else◌, ◌>>=◌,
}
use code_snippet.Prelude.Arrays.{get_elem?, store}

-- `while (low < high && arr[high] >= pivotkey) high--;`, with `high - low` rounds.
unfoldable pub scan_down : (rounds : ℕ) → List ℤ → ℤ → (high : ℕ) → Option ℕ
scan_down zero arr key high = some high
scan_down (suc rounds) arr key high = do
  x ← get_elem? arr high
  if ltb_ℤ x key then some high else scan_down rounds arr key (high - 1)

-- `while (low < high && arr[low] <= pivotkey) low++;`, with `high - low` rounds.
unfoldable pub scan_up : (rounds : ℕ) → List ℤ → ℤ → (low : ℕ) → Option ℕ
scan_up zero arr key low = some low
scan_up (suc rounds) arr key low = do
  x ← get_elem? arr low
  if ltb_ℤ key x then some low else scan_up rounds arr key (low + 1)

-- `if (low < high) arr[low++] = arr[high];`
unfoldable pub move_down : List ℤ → (low high : ℕ) → Option (List ℤ × ℕ)
move_down arr low high =
    if ltb low high
    then (get_elem? arr high >>= λ x. store arr low x >>= λ arr'. some (arr', low + 1))
    else some (arr, low)

-- `if (low < high) arr[high--] = arr[low];`
unfoldable pub move_up : List ℤ → (low high : ℕ) → Option (List ℤ × ℕ)
move_up arr low high =
    if ltb low high
    then (get_elem? arr low >>= λ x. store arr high x >>= λ arr'. some (arr', high - 1))
    else some (arr, high)

-- The loop of `partition`, and the write of the pivot after it.
unfoldable pub partition_from : (fuel : ℕ) → List ℤ → ℤ → (low high : ℕ) → Option (List ℤ × ℕ)
partition_from zero arr key low high = none
partition_from (suc fuel) arr key low high =
    if ltb low high
    then (scan_down (high - low) arr key high >>= λ high₁. move_down arr low high₁ >>= λ down.
        scan_up (high₁ - down.1) down.0 key down.1 >>= λ low₁.
        move_up down.0 low₁ high₁ >>= λ up. partition_from fuel up.0 key low₁ up.1)
    else (store arr low key >>= λ arr'. some (arr', low))

-- `partition`; the place is `none` where the source returns -1. The array is not null.
unfoldable pub partition : List ℤ → (low high : ℕ) → Option (List ℤ × Option ℕ)
partition arr low high = if leb high low then some (arr, none) else (do
  pivotkey ← get_elem? arr low
  (arr', pivot) ← partition_from (high - low + 1) arr pivotkey low high
  some (arr', some pivot))

-- `qsort` from `low` up to before `stop`. With -1 for the pivot the first of its calls would return
-- at once, and the second start at 0.
unfoldable pub qsort : (fuel : ℕ) → List ℤ → (low stop : ℕ) → Option (List ℤ)
qsort zero arr low stop = none
qsort (suc fuel) arr low stop =
    if ltb (low + 1) stop
    then (partition arr low (stop - 1) >>= λ parted. elim parted.1 [
      | none ↦ qsort fuel parted.0 0 stop
      | some pivot ↦ qsort fuel parted.0 low pivot >>= λ arr'. qsort fuel arr' (pivot + 1) stop
    ])
    else some arr

unfoldable pub quick_sort : List ℤ → ℕ → Option (List ℤ)
quick_sort arr n = qsort (n + 1) arr 0 n
