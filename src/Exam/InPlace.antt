-- ===== src/Exam/InPlace.antt =====
-- exam/point_to_offer/0301_duplicateInArray.c: a number that occurs twice, found by moving each
-- number to its own index.
pub mod Swaps
pub mod Decides
use code_snippet.Prelude.{
  ℕ, zero, suc, ◌+◌, Option, none, some, List, ℤ, pos, negsuc, ◌==ℤ◌, length, if◌then◌else◌, ◌>>=◌,
}
use code_snippet.Prelude.Arrays.{get_elem?, store}

-- A number as an index: a negative one is outside of the array.
abbrev pub index : ℤ → Option ℕ
index (pos t) = some t
index (negsuc t) = none

-- The `while` loop at `i`, on fuel: the number that is returned, if any, and the array.
unfoldable pub settle : (fuel : ℕ) → List ℤ → (i : ℕ) → Option (Option ℤ × List ℤ)
settle zero arr i = none
settle (suc fuel) arr i = do
  x ← get_elem? arr i
  if x ==ℤ pos i then some (none, arr) else (do
    tmp ← index x
    y ← get_elem? arr tmp
    if x ==ℤ y
        then some (some x, arr)
        else (do arr₁ ← store arr i y; arr₂ ← store arr₁ tmp x; settle fuel arr₂ i))

-- The `for` loop from `i`. A `while` loop moves at most `n` numbers.
unfoldable pub settle_from : (rounds : ℕ) → (n i : ℕ) → List ℤ → Option (ℤ × List ℤ)
settle_from zero n i arr = some (negsuc 0, arr)
settle_from (suc rounds) n i arr = do
  (found, arr') ← settle (n + 1) arr i
  elim found [ some v ↦ some (v, arr') | none ↦ settle_from rounds n (i + 1) arr' ]

unfoldable pub duplicate : List ℤ → ℕ → Option (ℤ × List ℤ)
duplicate arr n = settle_from n n 0 arr
