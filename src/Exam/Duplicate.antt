-- ===== src/Exam/Duplicate.antt =====
-- exam/point_to_offer/0302_duplicateInArray.c: a number that occurs twice, found by counting
-- how many numbers lie in a range. Of an array of none, the source's `end` is -1, and 0 here: both are below
-- `start`.
use code_snippet.Prelude.{
  ℕ, zero, suc, ◌+◌, ◌-◌, ◌/◌, ◌≡◌, ◌≤◌, ◌<◌, refl, ap, ◌∙◌, Bool, true, ◌&&◌, Option, none, some,
  List, [], ◌∷◌, ◌++◌, ℤ, pos, negsuc, ltb_ℤ, not, ltb, leb, ◌==◌, if◌then◌else◌, ◌>>=◌, ◌≤ℤ◌,
  length, All, arith, Bool-cases, inl, inr, same_index,
}
use code_snippet.Prelude.Arrays.{get_elem?}
use code_snippet.Prelude.Focus.{rebuild, get_elem?-rebuild}
use code_snippet.Sort.Order.{occurrences}

-- The test of `countRange`.
abbrev in_range : ℕ → ℕ → ℤ → Bool
in_range start end x = not (ltb_ℤ x (pos start)) && not (ltb_ℤ (pos end) x)

-- The loop of `countRange` from `i`.
unfoldable pub count_from : (rounds : ℕ) → List ℤ → (i start end count : ℕ) → Option ℕ
count_from zero arr i start end count = some count
count_from (suc rounds) arr i start end count = do
  x ← get_elem? arr i
  count_from rounds arr (i + 1) start end (if in_range start end x then count + 1 else count)

unfoldable pub count_range : List ℤ → (n start end : ℕ) → Option ℕ
count_range arr n start end = count_from n arr 0 start end 0

-- The loop of `duplicate`, with what comes after it.
unfoldable pub halve : (fuel : ℕ) → List ℤ → (n start end : ℕ) → Option ℤ
halve zero arr n start end = none
halve (suc fuel) arr n start end =
    if leb start end
    then (let mid = (end - start) / 2 + start in
        count_range arr n start mid >>= λ count.
        if start == end
        then (if ltb 1 count then some (pos start) else some (negsuc 0))
        else if ltb (mid - start + 1) count
        then halve fuel arr n start mid
        else halve fuel arr n (mid + 1) end)
    else some (negsuc 0)

unfoldable pub duplicate : List ℤ → ℕ → Option ℤ
duplicate arr n = halve (n + 1) arr n 1 (n - 1)

-- How many numbers lie in a range.
abbrev within : ℕ → ℕ → List ℤ → ℕ
within start end [] = 0
within start end (x ∷ xs) =
    if in_range start end x then 1 + within start end xs else within start end xs

count_from-within :
    (pre xs rest : List ℤ) (i start end count : ℕ)
    → i ≡ length pre
    → count_from (length xs) (rebuild pre (xs ++ rest)) i start end count
      ≡ some (count + within start end xs)
unfolding count_from
count_from-within pre [] rest i start end count e = ap some (omega arith)
count_from-within pre (x ∷ xs) rest i start end count e =
    let next = count_from-within (x ∷ pre) xs rest (i + 1) start end in
    rw (get_elem?-rebuild pre (x ∷ xs ++ rest) i 0 (omega (arith, e)))
      (elim (Bool-cases (in_range start end x)) [
        | inl inside ↦ rw inside (next (count + 1) (omega (arith, e)) ∙ ap some (omega arith))
        | inr outside ↦ rw outside (next count (omega (arith, e)))
      ])

within-split :
    (start mid end : ℕ) (xs : List ℤ)
    → start ≤ mid + 1
    → mid ≤ end
    → within start mid xs + within (mid + 1) end xs ≡ within start end xs
within-split start mid end [] a b = refl
within-split start mid end (x ∷ xs) a b = ground (arith, within-split start mid end xs a b)

within-occurrences : (v : ℕ) (xs : List ℤ) → within v v xs ≡ occurrences (pos v) xs
within-occurrences v [] = refl
within-occurrences v (x ∷ xs) = ground (arith, within-occurrences v xs)

within-All :
    (start end : ℕ) (xs : List ℤ)
    → All (λ x. (pos start ≤ℤ x) × (x ≤ℤ pos end)) xs
    → within start end xs ≡ length xs
within-All start end [] a = refl
within-All start end (x ∷ xs) a = ground (arith, within-All start end xs)

abbrev middle : ℕ → ℕ → ℕ
middle start end = (end - start) / 2 + start

halve_turn :
    (fuel : ℕ) (xs rest : List ℤ) (start end : ℕ)
    → start ≤ end
    → halve (suc fuel) (xs ++ rest) (length xs) start end ≡ (
        let count = within start (middle start end) xs in
        if start == end
        then (if ltb 1 count then some (pos start) else some (negsuc 0))
        else if ltb (middle start end - start + 1) count
        then halve fuel (xs ++ rest) (length xs) start (middle start end)
        else halve fuel (xs ++ rest) (length xs) (middle start end + 1) end)
unfolding halve count_range
halve_turn fuel xs rest start end a =
    let order : leb start end ≡ true = ground (arith, a) in
    let counted =
      count_from-within [] xs rest 0 start (middle start end) 0 refl ∙ ap some (omega arith) in
    rw (order, counted) refl

-- A range with more numbers in it than it has places holds a number twice, and that is found.
halve-finds :
    (fuel : ℕ) (xs rest : List ℤ) (start end : ℕ)
    → end - start < fuel
    → start ≤ end
    → end - start + 1 < within start end xs
    → (v : ℕ) × (halve fuel (xs ++ rest) (length xs) start end ≡ some (pos v))
      × (2 ≤ occurrences (pos v) xs)
halve-finds zero xs rest start end f a more = absurd (omega (arith, f))
halve-finds (suc fuel) xs rest start end f a more =
    let turn = halve_turn fuel xs rest start end a in
    let mid = middle start end in
    let split = within-split start mid end xs (omega arith) (omega (arith, a)) in
    elim (Bool-cases (start == end)) [
      | inl same ↦
          let one_place : start ≡ end = same_index start end same in
          let here : mid ≡ start = omega (arith, one_place) in
          let many : 2 ≤ within start start xs =
            omega (arith, one_place, rw (← one_place) at more) in
          let two : ltb 1 (within start start xs) ≡ true = ground (arith, many) in
          (
            start,
            turn ∙ rw (same, here, two) refl,
            omega (arith, many, within-occurrences start xs),
          )
      | inr apart ↦
          let longer : start < end = ground (arith, apart, a) in
          elim (Bool-cases (ltb (mid - start + 1) (within start mid xs))) [
            | inl crowded ↦
                let (v, runs, twice) =
                  halve-finds fuel xs rest start mid (omega (arith, f, longer)) (omega arith)
                    (ground (arith, crowded)) in
                (v, turn ∙ rw (apart, crowded) runs, twice)
            | inr roomy ↦
                let few : within start mid xs ≤ mid - start + 1 = ground (arith, roomy) in
                let (v, runs, twice) =
                  halve-finds fuel xs rest (mid + 1) end (omega (arith, f, longer))
                    (omega (arith, longer)) (omega (arith, few, split, more, longer)) in
                (v, turn ∙ rw (apart, roomy) runs, twice)
          ]
    ]

-- Among `n` numbers from 1 to `n - 1`, at least two, `duplicate` ends, reads no element behind
-- them, and returns a number that occurs at least twice.
pub duplicate-finds :
    (xs rest : List ℤ)
    → 2 ≤ length xs
    → All (λ x. (pos 1 ≤ℤ x) × (x ≤ℤ pos (length xs - 1))) xs
    → (v : ℕ) × (duplicate (xs ++ rest) (length xs) ≡ some (pos v)) × (2 ≤ occurrences (pos v) xs)
unfolding duplicate
duplicate-finds xs rest size a =
    halve-finds (length xs + 1) xs rest 1 (length xs - 1) (omega arith) (omega (arith, size))
      (omega (arith, size, within-All 1 (length xs - 1) xs a))
