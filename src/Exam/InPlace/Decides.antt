-- ===== src/Exam/InPlace/Decides.antt =====
-- `duplicate` finds a number that occurs twice, or there is none.
use code_snippet.Prelude.{
  ℕ, zero, suc, ◌+◌, ◌≡◌, ◌≢◌, ◌≤◌, ◌<◌, ◌⊎◌, inl, inr, refl, ap, sym, ◌∙◌, Bool-cases, Option,
  none, some, List, ℤ, pos, negsuc, ◌==ℤ◌, ==ℤ_iff, length, arith, if◌then◌else◌, ltb, ◌==◌,
  same_index,
}
use code_snippet.Prelude.Arrays.{store-set, set, length-set}
use code_snippet.Sort.Order.{occurrences}
use code_snippet.Sort.Quick.Scan.{◌!◌, get-! }
use code_snippet.Exam.InPlace.{index, settle, settle_from, duplicate}
use code_snippet.Exam.InPlace.Swaps.{
  IsIndexed, swapped, misplaced, misplaced-length, length-swapped, swapped_second, swapped_other,
  occurrences-swapped, misplaced-swapped, swapped-IsIndexed, twice, at_most_once,
}

-- The numbers up to before `i` are at their index.
abbrev pub IsPlaced : ℕ → List ℤ → Type 0
IsPlaced i arr = (k : ℕ) → k < i → arr ! k ≡ pos k

-- What a loop makes of an array: the same numbers, all indices. It has found one that occurs
-- twice, or has placed the numbers up to before `i`.
record IsSettled (arr : List ℤ) (i : ℕ) (found : Option ℤ) (out : List ℤ) : Type 0 where
  size : length out ≡ length arr
  indexed : IsIndexed out
  same : (v : ℤ) → occurrences v out ≡ occurrences v arr
  outcome :
      ((v : ℕ) × (found ≡ some (pos v)) × (2 ≤ occurrences (pos v) out))
      ⊎ ((found ≡ none) × IsPlaced i out)

settle_turn :
    (fuel : ℕ) (arr : List ℤ) (i t : ℕ)
    → i < length arr
    → t < length arr
    → arr ! i ≡ pos t
    → settle (suc fuel) arr i ≡ (
        if arr ! i ==ℤ pos i
        then some (none, arr)
        else if arr ! i ==ℤ arr ! t
        then some (some (arr ! i), arr)
        else settle fuel (swapped arr i t) i)
unfolding settle
settle_turn fuel arr i t hi ht e =
    rw
      (
        get-! arr i hi,
        ap index e,
        get-! arr t ht,
        store-set arr i (arr ! t) hi,
        store-set (set arr i (arr ! t)) t (arr ! i) (omega (arith, ht, length-set arr i (arr ! t))),
      )
      refl

IsPlaced-next : (i : ℕ) (arr : List ℤ) → IsPlaced i arr → arr ! i ≡ pos i → IsPlaced (i + 1) arr
IsPlaced-next i arr placed e k h = elim (Bool-cases (ltb k i)) [
  | inl inside ↦ placed k (ground (arith, inside))
  | inr beyond ↦ let here : k ≡ i = ground (arith, h, beyond) in rw here e
]

still-IsPlaced :
    (arr : List ℤ) (i t : ℕ)
    → i < length arr
    → t < length arr
    → i ≢ t
    → IsPlaced i arr
    → arr ! i ≡ pos t
    → IsPlaced i (swapped arr i t)
still-IsPlaced arr i t hi ht ne placed e k h = elim (Bool-cases (k == t)) [
  | inl at_t ↦ rw (same_index k t at_t) (swapped_second arr i t hi ht ne ∙ e)
  | inr off_t ↦
      swapped_other arr i t hi ht ne k (λ s. absurd (omega (arith, h, s))) (ground (arith, off_t))
      ∙ placed k h
]

settle-IsSettled :
    (fuel : ℕ) (arr : List ℤ) (i : ℕ)
    → i < length arr
    → IsIndexed arr
    → IsPlaced i arr
    → misplaced 0 arr < fuel
    → (found : Option ℤ) × (out : List ℤ) × (settle fuel arr i ≡ some (found, out))
      × IsSettled arr (i + 1) found out
settle-IsSettled zero arr i h valid placed f = absurd (omega (arith, f))
settle-IsSettled (suc fuel) arr i h valid placed f =
    let (t, e, below) = valid i h in
    let turn = settle_turn fuel arr i t h below e in
    elim (Bool-cases (arr ! i ==ℤ pos i)) [
      | inl home ↦ (
        none,
        arr,
        turn ∙ rw home refl,
        record {
          size = refl;
          indexed = valid;
          same = λ v. refl;
          outcome = inr (refl, IsPlaced-next i arr placed ((==ℤ_iff (arr ! i) (pos i)).0 home));
        },
      )
      | inr away ↦
          let ne : i ≢ t = λ s. absurd (ground (arith, away, e, s)) in
          elim (Bool-cases (arr ! i ==ℤ arr ! t)) [
            | inl double ↦
                let again : arr ! t ≡ pos t = sym ((==ℤ_iff (arr ! i) (arr ! t)).0 double) ∙ e in
                (
                  some (arr ! i),
                  arr,
                  turn ∙ rw (away, double) refl,
                  record {
                    size = refl;
                    indexed = valid;
                    same = λ v. refl;
                    outcome = inl (t, ap some e, twice (pos t) arr i t h below ne e again);
                  },
                )
            | inr single ↦
                let next = swapped arr i t in
                let unlike : arr ! t ≢ pos t = λ s. absurd (ground (arith, single, e, s)) in
                let size = length-swapped arr i t h below ne in
                let (found, out, runs, settled) =
                  settle-IsSettled fuel next i (omega (arith, h, size))
                    (swapped-IsIndexed arr i t h below ne valid)
                    (still-IsPlaced arr i t h below ne placed e)
                    (omega (arith, f, misplaced-swapped arr i t h below ne e unlike)) in
                (
                  found,
                  out,
                  turn ∙ rw (away, single) runs,
                  record {
                    size = settled.size ∙ size;
                    indexed = settled.indexed;
                    same = λ v. settled.same v ∙ occurrences-swapped arr i t h below ne v;
                    outcome = settled.outcome;
                  },
                )
          ]
    ]

settle_from-IsSettled :
    (rounds n i : ℕ) (arr : List ℤ)
    → n ≡ length arr
    → i + rounds ≡ n
    → IsIndexed arr
    → IsPlaced i arr
    → (r : ℤ) × (out : List ℤ) × (settle_from rounds n i arr ≡ some (r, out))
      × ((v : ℤ) → occurrences v out ≡ occurrences v arr)
      × (((v : ℕ) × (r ≡ pos v) × (2 ≤ occurrences (pos v) arr))
          ⊎ ((r ≡ negsuc 0) × ((v : ℤ) → occurrences v arr ≤ 1)))
unfolding settle_from
settle_from-IsSettled zero n i arr size e valid placed = (
  negsuc 0,
  arr,
  refl,
  (λ v. refl),
  inr (
    refl,
    λ v. at_most_once 0 v arr (λ j h. placed j (omega (arith, h, size, e)) ∙ ap pos (omega arith)),
  ),
)
settle_from-IsSettled (suc rounds) n i arr size e valid placed =
    let (found, out, runs, settled) =
      settle-IsSettled (n + 1) arr i (omega (arith, size, e)) valid placed
        (omega (arith, misplaced-length 0 arr, size)) in
    elim settled.outcome [
      | inl (v, is, double) ↦ (
        pos v,
        out,
        rw (runs, is) refl,
        settled.same,
        inl (v, refl, omega (arith, double, settled.same (pos v))),
      )
      | inr (missing, placed') ↦
          let (r, out', more, same, decided) =
            settle_from-IsSettled rounds n (i + 1) out (omega (arith, size, settled.size))
              (omega (arith, e)) settled.indexed placed' in
          (
            r,
            out',
            rw (runs, missing) more,
            (λ v. same v ∙ settled.same v),
            elim decided [
              | inl (v, is, double) ↦ inl (v, is, omega (arith, double, settled.same (pos v)))
              | inr (is, single) ↦ inr (is, λ v. omega (arith, single v, settled.same v))
            ],
          )
    ]

-- On an array of numbers that are all indices of it, `duplicate` ends, stays inside the array and
-- only moves its numbers. It returns a number that occurs at least twice, or -1 when no number
-- does.
pub duplicate-decides :
    (arr : List ℤ)
    → IsIndexed arr
    → (r : ℤ) × (out : List ℤ) × (duplicate arr (length arr) ≡ some (r, out))
      × ((v : ℤ) → occurrences v out ≡ occurrences v arr)
      × (((v : ℕ) × (r ≡ pos v) × (2 ≤ occurrences (pos v) arr))
          ⊎ ((r ≡ negsuc 0) × ((v : ℤ) → occurrences v arr ≤ 1)))
unfolding duplicate
duplicate-decides arr valid =
    settle_from-IsSettled (length arr) (length arr) 0 arr refl (omega arith) valid
      (λ k h. absurd (omega (arith, h)))
