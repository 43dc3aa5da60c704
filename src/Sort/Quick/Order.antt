-- ===== src/Sort/Quick/Order.antt =====
-- `quick_sort` puts an array in order.
use code_snippet.Prelude.{
  ℕ, zero, suc, ◌+◌, ◌-◌, ◌≡◌, ◌≢◌, ◌≤◌, ◌<◌, ◌⊎◌, inl, inr, refl, ◌∙◌, some, List, ℤ, ◌≤ℤ◌, ltb,
  length, arith, true, Bool-cases, side,
}
use code_snippet.Sort.Order.{occurrences}
use code_snippet.Sort.Quick.{partition, qsort, quick_sort}
use code_snippet.Sort.Quick.Scan.{◌!◌}
use code_snippet.Sort.Quick.Partition.{IsParted, partition-IsParted}

-- The elements from `low` up to before `stop` are in order, and are those that were there; all
-- others are in place.
pub record IsSortedRange (arr : List ℤ) (low stop : ℕ) (out : List ℤ) : Type 1 where
  pub size : length out ≡ length arr
  pub ordered : (i j : ℕ) → low ≤ i → i < j → j < stop → out ! i ≤ℤ out ! j
  pub outside : (k : ℕ) → (k < low) ⊎ (stop ≤ k) → out ! k ≡ arr ! k
  pub same : (v : ℤ) → occurrences v out ≡ occurrences v arr
  pub each :
      (P : ℤ → Type 0)
      → ((k : ℕ) → low ≤ k → k < stop → P (arr ! k))
      → (k : ℕ) → low ≤ k
      → k < stop
      → P (out ! k)

short : (arr : List ℤ) (low stop : ℕ) → stop ≤ low + 1 → IsSortedRange arr low stop arr
short arr low stop h = record {
  size = refl;
  ordered = λ i j a b c. absurd (omega (arith, h, a, b, c));
  outside = λ k o. refl;
  same = λ v. refl;
  each = λ P q k a b. q k a b;
}

-- The parts before and behind the pivot, each in order.
joined :
    (arr : List ℤ) (low stop : ℕ) (parted : List ℤ) (m : ℕ) (left right : List ℤ)
    → low + 1 < stop
    → IsParted arr (arr ! low) low (stop - 1) parted m
    → ((v : ℤ) → occurrences v parted ≡ occurrences v arr)
    → IsSortedRange parted low m left
    → IsSortedRange left (m + 1) stop right
    → IsSortedRange arr low stop right
joined arr low stop parted m left right h p same l r =
    let key = arr ! low in
    let at_m : right ! m ≡ key =
      r.outside m (inl (omega arith)) ∙ l.outside m (inr (omega arith)) ∙ p.pivot in
    let before : (k : ℕ) → low ≤ k → k < m → right ! k ≤ℤ key =
      (λ k a b. rw (r.outside k (inl (omega (arith, b)))) (l.each (λ x. x ≤ℤ key) p.left k a b)) in
    let behind : (k : ℕ) → m < k → k < stop → key ≤ℤ right ! k = (λ k a b.
      r.each (λ x. key ≤ℤ x)
        (λ j c d.
          rw (l.outside j (inr (omega (arith, c))))
            (p.right j (omega (arith, c)) (omega (arith, d))))
        k (omega (arith, a)) b) in
    record {
      size = r.size ∙ l.size ∙ p.size;
      ordered = λ i j a b c. elim (side i m) [
        | inl i_before ↦ elim (side j m) [
          | inl j_before ↦
              rw
                (
                  r.outside i (inl (omega (arith, i_before))),
                  r.outside j (inl (omega (arith, j_before))),
                )
                (l.ordered i j a b j_before)
          | inr (inl at) ↦ rw (at, at_m) (before i a i_before)
          | inr (inr j_behind) ↦ omega (arith, before i a i_before, behind j j_behind c)
        ]
        | inr (inl at) ↦ rw (at, at_m) (behind j (omega (arith, at, b)) c)
        | inr (inr i_behind) ↦ r.ordered i j (omega (arith, i_behind)) b c
      ];
      outside = λ k o.
          r.outside k (ground (arith, o, p.below, h))
          ∙ l.outside k (ground (arith, o, p.below, h))
          ∙ p.outside k (ground (arith, o, h));
      same = λ v. r.same v ∙ l.same v ∙ same v;
      each = λ P q k a b.
          let kept : (j : ℕ) → low ≤ j → j < stop → j ≢ m → P (parted ! j) = (λ j c d.
            p.each P (λ i e f. q i (omega (arith, e)) (omega (arith, f, h))) j c
              (omega (arith, d))) in
          elim (side k m) [
            | inl under ↦ rw (r.outside k (inl (omega (arith, under)))) (
                l.each P (λ j c d. kept j c (omega (arith, d, p.below, h)) (omega (arith, d))) k a
                  under)
            | inr (inl at) ↦ rw (at, at_m) (q low (omega arith) (omega (arith, h)))
            | inr (inr over) ↦
                r.each P
                  (λ j c d.
                    rw (l.outside j (inr (omega (arith, c))))
                      (kept j (omega (arith, c, p.above)) d (omega (arith, c))))
                  k (omega (arith, over)) b
          ];
    }

qsort-step :
    (fuel : ℕ) (arr : List ℤ) (low stop : ℕ) (parted : List ℤ) (m : ℕ) (left right : List ℤ)
    → ltb (low + 1) stop ≡ true
    → partition arr low (stop - 1) ≡ some (parted, some m)
    → qsort fuel parted low m ≡ some left
    → qsort fuel left (m + 1) stop ≡ some right
    → qsort (suc fuel) arr low stop ≡ some right
unfolding qsort
qsort-step fuel arr low stop parted m left right large parts l r = rw (large, parts, l, r) refl

qsort-IsSortedRange :
    (fuel : ℕ) (arr : List ℤ) (low stop : ℕ)
    → stop - low < fuel
    → stop ≤ length arr
    → (out : List ℤ) × (qsort fuel arr low stop ≡ some out) × IsSortedRange arr low stop out
unfolding qsort
qsort-IsSortedRange zero arr low stop f s = absurd (omega (arith, f))
qsort-IsSortedRange (suc fuel) arr low stop f s = elim (Bool-cases (ltb (low + 1) stop)) [
  | inr small ↦ (arr, rw small refl, short arr low stop (ground (arith, small)))
  | inl large ↦
      let h : low + 1 < stop = ground (arith, large) in
      let (parted, m, runs, p, same) =
        partition-IsParted arr low (stop - 1) (omega (arith, h)) (omega (arith, h, s)) in
      let (left, runs₁, l) =
        qsort-IsSortedRange fuel parted low m (omega (arith, f, p.above, p.below, h))
          (omega (arith, p.below, p.size, s, h)) in
      let (right, runs₂, r) =
        qsort-IsSortedRange fuel left (m + 1) stop (omega (arith, f, p.above, h))
          (omega (arith, l.size, p.size, s)) in
      (
        right,
        qsort-step fuel arr low stop parted m left right large runs runs₁ runs₂,
        joined arr low stop parted m left right h p same l r,
      )
]

-- `quick_sort` of the first `n` elements of an array of at least as many ends, stays in the array,
-- puts these elements in order, and leaves the others in place; each element is there as often as before.
pub quick_sort-IsSortedRange :
    (arr : List ℤ) (n : ℕ)
    → n ≤ length arr
    → (out : List ℤ) × (quick_sort arr n ≡ some out) × IsSortedRange arr 0 n out
unfolding quick_sort
quick_sort-IsSortedRange arr n s = qsort-IsSortedRange (n + 1) arr 0 n (omega arith) s
