-- ===== src/Exam/InPlace/Swaps.antt =====
-- What a swap of the loop keeps, and what it lowers.
use code_snippet.Prelude.{
  ℕ, zero, suc, ◌+◌, ◌≡◌, ◌≢◌, ◌≤◌, ◌<◌, inl, inr, refl, ap, sym, ◌∙◌, Bool-cases, List, [], ◌∷◌, ℤ,
  pos, ◌==ℤ◌, ◌==◌, if◌then◌else◌, length, arith, same_index,
}
use code_snippet.Prelude.Arrays.{set, length-set, get_or-set_self, get_or-set_ne}
use code_snippet.Sort.Order.{occurrences}
use code_snippet.Sort.Quick.Scan.{◌!◌, occurrences-set}

-- Every number is an index of the array.
abbrev pub IsIndexed : List ℤ → Type 0
IsIndexed arr = (k : ℕ) → k < length arr → (t : ℕ) × (arr ! k ≡ pos t) × (t < length arr)

abbrev pub swapped : List ℤ → (i t : ℕ) → List ℤ
swapped arr i t = set (set arr i (arr ! t)) t (arr ! i)

-- How many numbers are not at their index, of a part from `k` on.
abbrev misplaced_at : ℕ → ℤ → ℕ
misplaced_at k x = if x ==ℤ pos k then 0 else 1

abbrev pub misplaced : ℕ → List ℤ → ℕ
misplaced k [] = 0
misplaced k (x ∷ xs) = misplaced_at k x + misplaced (k + 1) xs

pub misplaced-length : (k : ℕ) (xs : List ℤ) → misplaced k xs ≤ length xs
misplaced-length k [] = omega arith
misplaced-length k (x ∷ xs) = ground (arith, misplaced-length (k + 1) xs)

misplaced-set :
    (k : ℕ) (xs : List ℤ) (j : ℕ) (v : ℤ)
    → j < length xs
    → misplaced k (set xs j v) + misplaced_at (k + j) (xs ! j)
      ≡ misplaced k xs + misplaced_at (k + j) v
misplaced-set k [] j v h = absurd (omega (arith, h))
misplaced-set k (x ∷ xs) zero v h = let here : k + 0 ≡ k = omega arith in rw here (omega arith)
misplaced-set k (x ∷ xs) (suc j) v h =
    let there : k + 1 + j ≡ k + suc j = omega arith in
    omega (arith, rw there at (misplaced-set (k + 1) xs j v (omega (arith, h))))

module _ (arr : List ℤ) (i t : ℕ) (hi : i < length arr) (ht : t < length arr) (ne : i ≢ t) where
  pub length-swapped : length (swapped arr i t) ≡ length arr
  length-swapped = length-set (set arr i (arr ! t)) t (arr ! i) ∙ length-set arr i (arr ! t)

  in_first : t < length (set arr i (arr ! t))
  in_first = omega (arith, ht, length-set arr i (arr ! t))

  pub swapped_first : swapped arr i t ! i ≡ arr ! t
  swapped_first =
      get_or-set_ne (set arr i (arr ! t)) t i (arr ! i) (pos 0) (λ e. ne (sym e))
      ∙ get_or-set_self arr i (arr ! t) (pos 0) hi

  pub swapped_second : swapped arr i t ! t ≡ arr ! i
  swapped_second = get_or-set_self (set arr i (arr ! t)) t (arr ! i) (pos 0) in_first

  pub swapped_other : (k : ℕ) → k ≢ i → k ≢ t → swapped arr i t ! k ≡ arr ! k
  swapped_other k a b =
      get_or-set_ne (set arr i (arr ! t)) t k (arr ! i) (pos 0) (λ e. b (sym e))
      ∙ get_or-set_ne arr i k (arr ! t) (pos 0) (λ e. a (sym e))

  kept : set arr i (arr ! t) ! t ≡ arr ! t
  kept = get_or-set_ne arr i t (arr ! t) (pos 0) ne

  pub occurrences-swapped : (v : ℤ) → occurrences v (swapped arr i t) ≡ occurrences v arr
  occurrences-swapped v = omega (
    arith,
    rw kept at (occurrences-set v (set arr i (arr ! t)) t (arr ! i) in_first),
    occurrences-set v arr i (arr ! t) hi,
  )

  pub misplaced-swapped :
      arr ! i ≡ pos t → arr ! t ≢ pos t → misplaced 0 (swapped arr i t) < misplaced 0 arr
  misplaced-swapped e f =
      let first = misplaced-set 0 arr i (arr ! t) hi in
      let second = rw kept at (misplaced-set 0 (set arr i (arr ! t)) t (arr ! i) in_first) in
      let was_i : misplaced_at (0 + i) (arr ! i) ≡ 1 = rw e (ground (arith, ne)) in
      let was_t : misplaced_at (0 + t) (arr ! t) ≡ 1 = ground (arith, f) in
      let is_t : misplaced_at (0 + t) (arr ! i) ≡ 0 = rw e (ground arith) in
      let is_i : misplaced_at (0 + i) (arr ! t) ≤ 1 = ground arith in
      omega (arith, first, second, was_i, was_t, is_t, is_i)

  pub swapped-IsIndexed : IsIndexed arr → IsIndexed (swapped arr i t)
  swapped-IsIndexed valid k h =
      let size = length-swapped in
      elim (Bool-cases (k == i)) [
        | inl at_i ↦
            let (u, e, below) = valid t ht in
            (
              u,
              ap (λ j. swapped arr i t ! j) (same_index k i at_i) ∙ swapped_first ∙ e,
              omega (arith, below, size),
            )
        | inr off_i ↦ elim (Bool-cases (k == t)) [
          | inl at_t ↦
              let (u, e, below) = valid i hi in
              (
                u,
                ap (λ j. swapped arr i t ! j) (same_index k t at_t) ∙ swapped_second ∙ e,
                omega (arith, below, size),
              )
          | inr off_t ↦
              let (u, e, below) = valid k (omega (arith, h, size)) in
              (
                u,
                swapped_other k (ground (arith, off_i)) (ground (arith, off_t)) ∙ e,
                omega (arith, below, size),
              )
        ]
      ]

-- Two places with the same number.
once : (v : ℤ) (xs : List ℤ) (i : ℕ) → i < length xs → xs ! i ≡ v → 1 ≤ occurrences v xs
once v [] i h e = absurd (omega (arith, h))
once v (x ∷ xs) zero h e = ground (arith, e)
once v (x ∷ xs) (suc i) h e = omega (arith, once v xs i (omega (arith, h)) e)

pub twice :
    (v : ℤ) (xs : List ℤ) (i j : ℕ)
    → i < length xs
    → j < length xs
    → i ≢ j
    → xs ! i ≡ v
    → xs ! j ≡ v
    → 2 ≤ occurrences v xs
twice v [] i j h g ne e f = absurd (omega (arith, h))
twice v (x ∷ xs) zero zero h g ne e f = absurd (ne refl)
twice v (x ∷ xs) zero (suc j) h g ne e f =
    let one = once v xs j (omega (arith, g)) f in ground (arith, e, one)
twice v (x ∷ xs) (suc i) zero h g ne e f =
    let one = once v xs i (omega (arith, h)) e in ground (arith, f, one)
twice v (x ∷ xs) (suc i) (suc j) h g ne e f =
    omega (arith, twice v xs i j (omega (arith, h)) (omega (arith, g)) (λ s. ne (ap suc s)) e f)

-- Numbers that are all at their index are different.
absent :
    (k w : ℕ) (xs : List ℤ)
    → ((j : ℕ) → j < length xs → xs ! j ≡ pos (k + j))
    → w < k
    → occurrences (pos w) xs ≡ 0
absent k w [] placed h = refl
absent k w (x ∷ xs) placed h =
    let here : x ≡ pos (k + 0) = placed zero (omega arith) in
    let rest =
      absent (k + 1) w xs (λ j g. placed (suc j) (omega (arith, g)) ∙ ap pos (omega arith))
        (omega (arith, h)) in
    ground (arith, here, rest)

pub at_most_once :
    (k : ℕ) (v : ℤ) (xs : List ℤ)
    → ((j : ℕ) → j < length xs → xs ! j ≡ pos (k + j))
    → occurrences v xs ≤ 1
at_most_once k v [] placed = omega arith
at_most_once k v (x ∷ xs) placed =
    let here : x ≡ pos (k + 0) = placed zero (omega arith) in
    let next : (j : ℕ) → j < length xs → xs ! j ≡ pos (k + 1 + j) =
      λ j g. placed (suc j) (omega (arith, g)) ∙ ap pos (omega arith) in
    elim (Bool-cases (x ==ℤ v)) [
      | inr other ↦ rw other (omega (arith, at_most_once (k + 1) v xs next))
      | inl same ↦
          let e : v ≡ pos k = ground (arith, here, same) in
          let none_left : occurrences v xs ≡ 0 = rw e (absent (k + 1) k xs next (omega arith)) in
          rw same (omega (arith, none_left))
    ]
