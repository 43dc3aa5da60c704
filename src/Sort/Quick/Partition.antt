-- ===== src/Sort/Quick/Partition.antt =====
-- The rounds of `partition` put together: the pivot between what is at most it and what is at
-- least it.
use code_snippet.Prelude.{
  leb, false, ℕ, zero, suc, ◌+◌, ◌-◌, ◌≡◌, ◌≢◌, ◌≤◌, ◌<◌, ◌⊎◌, inl, inr, refl, ap, ◌∙◌, some, List,
  [], ◌∷◌, ℤ, pos, ◌≤ℤ◌, ◌<ℤ◌, ltb, length, arith, true, false, Bool-cases, at_or_below,
  at_or_above,
}
use code_snippet.Prelude.Arrays.{set, store-set, length-set, get_or-set_self, get_or-set_ne}
use code_snippet.Sort.Order.{occurrences}
use code_snippet.Sort.Quick.{scan_down, scan_up, move_down, move_up, partition_from, partition}
use code_snippet.Sort.Quick.Scan.{
  ◌!◌, get-!, scan_down-stops, scan_up-stops, move_down-eq, move_up-eq,
}
use code_snippet.Sort.Quick.Round.{Narrows, none_below, one_move, two_moves}

move_down-none : (arr : List ℤ) (low : ℕ) → move_down arr low low ≡ some (arr, low)
unfolding move_down
move_down-none arr low = let test : ltb low low ≡ false = ground arith in rw test refl

move_up-none : (arr : List ℤ) (low : ℕ) → move_up arr low low ≡ some (arr, low)
unfolding move_up
move_up-none arr low = let test : ltb low low ≡ false = ground arith in rw test refl

scan_up-none : (arr : List ℤ) (key : ℤ) (low : ℕ) → scan_up (low - low) arr key low ≡ some low
unfolding scan_up
scan_up-none arr key low = let none_left : low - low ≡ 0 = omega arith in rw none_left refl

-- What a round that begins with an open range leads to.
abbrev Continues : ℕ → List ℤ → ℤ → ℕ → ℕ → Type 1
Continues fuel arr key low high =
    (out : List ℤ) × (l : ℕ) × (h : ℕ) × (partition_from (suc fuel) arr key low high
      ≡ partition_from fuel out key l h)
    × Narrows arr key low high out l h

round_none :
    (fuel : ℕ) (arr : List ℤ) (key : ℤ) (low high : ℕ)
    → low < high
    → scan_down (high - low) arr key high ≡ some low
    → ((k : ℕ) → low < k → k ≤ high → key ≤ℤ arr ! k)
    → Continues fuel arr key low high
unfolding partition_from
round_none fuel arr key low high a runs passed =
    let test : ltb low high ≡ true = ground (arith, a) in
    (
      arr,
      low,
      low,
      rw (test, runs, move_down-none arr low, scan_up-none arr key low, move_up-none arr low) refl,
      none_below arr key low high a passed,
    )

round_one :
    (fuel : ℕ) (arr : List ℤ) (key : ℤ) (low high h : ℕ)
    → low < h
    → h ≤ high
    → high < length arr
    → scan_down (high - low) arr key high ≡ some h
    → ((k : ℕ) → h < k → k ≤ high → key ≤ℤ arr ! k)
    → arr ! h <ℤ key
    → scan_up (h - (low + 1)) (set arr low (arr ! h)) key (low + 1) ≡ some h
    → ((k : ℕ) → low + 1 ≤ k → k < h → set arr low (arr ! h) ! k ≤ℤ key)
    → Continues fuel arr key low high
unfolding partition_from
round_one fuel arr key low high h a b s runs passed less runs' upto =
    let test : ltb low high ≡ true = ground (arith, a, b) in
    (
      set arr low (arr ! h),
      h,
      h,
      rw
          (
            test,
            runs,
            move_down-eq arr low h a (omega (arith, b, s)),
            runs',
            move_up-none (set arr low (arr ! h)) h,
          )
          refl,
      one_move arr key low high h a b s passed less upto,
    )

round_two :
    (fuel : ℕ) (arr : List ℤ) (key : ℤ) (low high h l : ℕ)
    → low < h
    → h ≤ high
    → high < length arr
    → scan_down (high - low) arr key high ≡ some h
    → ((k : ℕ) → h < k → k ≤ high → key ≤ℤ arr ! k)
    → arr ! h <ℤ key
    → low + 1 ≤ l
    → l < h
    → scan_up (h - (low + 1)) (set arr low (arr ! h)) key (low + 1) ≡ some l
    → ((k : ℕ) → low + 1 ≤ k → k < l → set arr low (arr ! h) ! k ≤ℤ key)
    → key <ℤ set arr low (arr ! h) ! l
    → Continues fuel arr key low high
unfolding partition_from
round_two fuel arr key low high h l a b s runs passed less c d runs' upto more =
    let test : ltb low high ≡ true = ground (arith, a, b) in
    let arr₁ = set arr low (arr ! h) in
    (
      set arr₁ h (arr₁ ! l),
      l,
      h - 1,
      rw
          (
            test,
            runs,
            move_down-eq arr low h a (omega (arith, b, s)),
            runs',
            move_up-eq arr₁ l h d (omega (arith, b, s, length-set arr low (arr ! h))),
          )
          refl,
      two_moves arr key low high h l a b s passed less c d upto more,
    )

round_moving :
    (fuel : ℕ) (arr : List ℤ) (key : ℤ) (low high h : ℕ)
    → low < h
    → h ≤ high
    → high < length arr
    → scan_down (high - low) arr key high ≡ some h
    → ((k : ℕ) → h < k → k ≤ high → key ≤ℤ arr ! k)
    → arr ! h <ℤ key
    → Continues fuel arr key low high
round_moving fuel arr key low high h a b s runs passed less =
    let arr₁ = set arr low (arr ! h) in
    let (l, runs', above, below, upto, stop) =
      scan_up-stops (h - (low + 1)) arr₁ key (low + 1) h (omega (arith, a))
        (omega (arith, b, s, length-set arr low (arr ! h))) in
    elim (at_or_below l h below) [
      | inl met ↦
          round_one fuel arr key low high h a b s runs passed less (runs' ∙ ap some met)
            (λ k c d. upto k c (omega (arith, d, met)))
      | inr under ↦ elim stop [
        | inl met ↦ absurd (omega (arith, met, under, a))
        | inr more ↦
            round_two fuel arr key low high h l a b s runs passed less above
              (omega (arith, under, a)) runs' upto more
      ]
    ]

round :
    (fuel : ℕ) (arr : List ℤ) (key : ℤ) (low high : ℕ)
    → low < high
    → high < length arr
    → Continues fuel arr key low high
round fuel arr key low high a s =
    let (h, runs, above, below, passed, stop) =
      scan_down-stops (high - low) arr key low high (omega (arith, a)) s in
    elim (at_or_above h low above) [
      | inl met ↦
          round_none fuel arr key low high a (runs ∙ ap some met)
            (λ k c d. passed k (omega (arith, c, met)) d)
      | inr over ↦ elim stop [
        | inl met ↦ absurd (omega (arith, met, over))
        | inr less ↦
            round_moving fuel arr key low high h (omega (arith, over)) below s runs passed less
      ]
    ]

-- The range from `low` to `high` of the array with the pivot for its element at `low`, parted at
-- `m`.
pub record IsParted (arr : List ℤ) (key : ℤ) (low high : ℕ) (out : List ℤ) (m : ℕ) : Type 1 where
  pub above : low ≤ m
  pub below : m ≤ high
  pub size : length out ≡ length arr
  pub pivot : out ! m ≡ key
  pub left : (k : ℕ) → low ≤ k → k < m → out ! k ≤ℤ key
  pub right : (k : ℕ) → m < k → k ≤ high → key ≤ℤ out ! k
  pub outside : (k : ℕ) → (k < low) ⊎ (high < k) → out ! k ≡ arr ! k
  pub same : (v : ℤ) → occurrences v out ≡ occurrences v (set arr low key)
  pub each :
      (P : ℤ → Type 0)
      → ((k : ℕ) → low < k → k ≤ high → P (arr ! k))
      → (k : ℕ) → low ≤ k
      → k ≤ high
      → k ≢ m
      → P (out ! k)

-- Where a place lies in a range, or outside of it.
pub place : (k l h : ℕ) → ((k < l) ⊎ (h < k)) ⊎ ((l ≤ k) × (k ≤ h))
place k l h = elim (Bool-cases (ltb k l)) [
  | inl low ↦ inl (inl (ground (arith, low)))
  | inr not_low ↦ elim (Bool-cases (ltb h k)) [
    | inl high ↦ inl (inr (ground (arith, high)))
    | inr not_high ↦ inr (ground (arith, not_low), ground (arith, not_high))
  ]
]

narrowed :
    (arr : List ℤ) (key : ℤ) (low high : ℕ) (mid : List ℤ) (l h : ℕ) (out : List ℤ) (m : ℕ)
    → Narrows arr key low high mid l h
    → IsParted mid key l h out m
    → IsParted arr key low high out m
narrowed arr key low high mid l h out m n p = record {
  above = omega (arith, n.above, p.above);
  below = omega (arith, n.below, p.below);
  size = p.size ∙ n.size;
  pivot = p.pivot;
  left = λ k a b. elim (place k l h) [
    | inl (inl low) ↦ rw (p.outside k (inl low)) (n.left k a low)
    | inl (inr high) ↦ absurd (omega (arith, high, b, p.below))
    | inr inside ↦ p.left k inside.0 b
  ];
  right = λ k a b. elim (place k l h) [
    | inl (inl low) ↦ absurd (omega (arith, low, a, p.above))
    | inl (inr high) ↦ rw (p.outside k (inr high)) (n.right k high b)
    | inr inside ↦ p.right k a inside.1
  ];
  outside = λ k o. p.outside k (ground (arith, o, n.above, n.below)) ∙ n.outside k o;
  same = λ v. p.same v ∙ n.same v;
  each = λ P q k a b ne. elim (place k l h) [
    | inl out ↦ rw (p.outside k out) (n.each P q k a b (ground (arith, out, n.ordered)))
    | inr inside ↦
        p.each P
          (λ j c d.
            n.each P q j (omega (arith, c, n.above)) (omega (arith, d, n.below)) (omega (arith, c)))
          k inside.0 inside.1 ne
  ];
}

closed :
    (arr : List ℤ) (key : ℤ) (low : ℕ)
    → low < length arr
    → IsParted arr key low low (set arr low key) low
closed arr key low s = record {
  above = omega arith;
  below = omega arith;
  size = length-set arr low key;
  pivot = get_or-set_self arr low key (pos 0) s;
  left = λ k a b. absurd (omega (arith, a, b));
  right = λ k a b. absurd (omega (arith, a, b));
  outside = λ k o. get_or-set_ne arr low k key (pos 0) (ground (arith, o));
  same = λ v. refl;
  each = λ P q k a b ne. absurd (ne (omega (arith, a, b)));
}

ended :
    (fuel : ℕ) (arr : List ℤ) (key : ℤ) (low : ℕ)
    → low < length arr
    → partition_from (suc fuel) arr key low low ≡ some (set arr low key, low)
unfolding partition_from
ended fuel arr key low s =
    let test : ltb low low ≡ false = ground arith in rw (test, store-set arr low key s) refl

partition_from-IsParted :
    (fuel : ℕ) (arr : List ℤ) (key : ℤ) (low high : ℕ)
    → high - low < fuel
    → low ≤ high
    → high < length arr
    → (out : List ℤ) × (m : ℕ) × (partition_from fuel arr key low high ≡ some (out, m))
      × IsParted arr key low high out m
partition_from-IsParted zero arr key low high f a s = absurd (omega (arith, f))
partition_from-IsParted (suc fuel) arr key low high f a s = elim (at_or_above high low a) [
  | inl met ↦ rw met (
    set arr low key,
    low,
    ended fuel arr key low (omega (arith, s, met)),
    closed arr key low (omega (arith, s, met)),
  )
  | inr under ↦
      let (mid, l, h, step, n) = round fuel arr key low high (omega (arith, under)) s in
      let (out, m, runs, p) =
        partition_from-IsParted fuel mid key l h (omega (arith, n.shorter, f)) n.ordered
          (omega (arith, n.below, n.size, s)) in
      (out, m, step ∙ runs, narrowed arr key low high mid l h out m n p)
]

occurrences-set_same :
    (v : ℤ) (arr : List ℤ) (k : ℕ) → occurrences v (set arr k (arr ! k)) ≡ occurrences v arr
occurrences-set_same v [] k = refl
occurrences-set_same v (x ∷ xs) zero = refl
occurrences-set_same v (x ∷ xs) (suc k) = omega (arith, occurrences-set_same v xs k)

-- `partition` of a range of two or more inside the array ends, inside the array, and gives back a
-- place of the range: the element that was first in the range is there, before it in the range are elements at
-- most that one, behind it elements at least that one, all else is in place, and each element is there as
-- often as before.
pub partition-IsParted :
    (arr : List ℤ) (low high : ℕ)
    → low < high
    → high < length arr
    → (out : List ℤ) × (m : ℕ) × (partition arr low high ≡ some (out, some m))
      × IsParted arr (arr ! low) low high out m
      × ((v : ℤ) → occurrences v out ≡ occurrences v arr)
unfolding partition
partition-IsParted arr low high a s =
    let (out, m, runs, p) =
      partition_from-IsParted (high - low + 1) arr (arr ! low) low high (omega arith)
        (omega (arith, a)) s in
    let wide : leb high low ≡ false = ground (arith, a) in
    (
      out,
      m,
      rw (wide, get-! arr low (omega (arith, a, s)), runs) refl,
      p,
      λ v. p.same v ∙ occurrences-set_same v arr low,
    )
