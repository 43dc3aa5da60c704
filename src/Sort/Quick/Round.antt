-- ===== src/Sort/Quick/Round.antt =====
-- One round of the loop of `partition`.
use code_snippet.Prelude.{
  ℕ, ◌+◌, ◌-◌, ◌≡◌, ◌≢◌, ◌≤◌, ◌<◌, ◌⊎◌, inl, inr, refl, ◌∙◌, List, ℤ, pos, ◌≤ℤ◌, ◌<ℤ◌, ◌==◌, length,
  arith, Bool-cases, at_or_above, same_index,
}
use code_snippet.Prelude.Arrays.{set, length-set, get_or-set_self, get_or-set_ne}
use code_snippet.Sort.Order.{occurrences}
use code_snippet.Sort.Quick.Scan.{◌!◌, occurrences-move}

-- The range from `low` to `high` of the array, with the hole at `low`, is left with the range from
-- `l` to `h` open, and the hole at `l`.
pub record Narrows (arr : List ℤ) (key : ℤ) (low high : ℕ) (out : List ℤ) (l h : ℕ) : Type 1 where
  pub above : low ≤ l
  pub ordered : l ≤ h
  pub below : h ≤ high
  pub shorter : h - l < high - low
  pub size : length out ≡ length arr
  pub left : (k : ℕ) → low ≤ k → k < l → out ! k ≤ℤ key
  pub right : (k : ℕ) → h < k → k ≤ high → key ≤ℤ out ! k
  pub outside : (k : ℕ) → (k < low) ⊎ (high < k) → out ! k ≡ arr ! k
  pub same : (v : ℤ) → occurrences v (set out l key) ≡ occurrences v (set arr low key)
  pub each :
      (P : ℤ → Type 0)
      → ((k : ℕ) → low < k → k ≤ high → P (arr ! k))
      → (k : ℕ) → low ≤ k
      → k ≤ high
      → k ≢ l
      → P (out ! k)

-- When no element from the end is below the pivot.
pub none_below :
    (arr : List ℤ) (key : ℤ) (low high : ℕ)
    → low < high
    → ((k : ℕ) → low < k → k ≤ high → key ≤ℤ arr ! k)
    → Narrows arr key low high arr low low
none_below arr key low high h passed = record {
  above = omega arith;
  ordered = omega arith;
  below = omega (arith, h);
  shorter = omega (arith, h);
  size = refl;
  left = λ k a b. absurd (omega (arith, a, b));
  right = passed;
  outside = λ k o. refl;
  same = λ v. refl;
  each = λ P p k a b ne. p k (ground (arith, a, ne)) b;
}

-- When the element at `h` moves to `low`, and the hole is then at `h`, up to which all else is at
-- most the pivot.
pub one_move :
    (arr : List ℤ) (key : ℤ) (low high h : ℕ)
    → low < h
    → h ≤ high
    → high < length arr
    → ((k : ℕ) → h < k → k ≤ high → key ≤ℤ arr ! k)
    → arr ! h <ℤ key
    → ((k : ℕ) → low + 1 ≤ k → k < h → set arr low (arr ! h) ! k ≤ℤ key)
    → Narrows arr key low high (set arr low (arr ! h)) h h
one_move arr key low high h a b s passed less upto =
    let at_low : set arr low (arr ! h) ! low ≡ arr ! h =
      get_or-set_self arr low (arr ! h) (pos 0) (omega (arith, a, b, s)) in
    let kept : (k : ℕ) → low ≢ k → set arr low (arr ! h) ! k ≡ arr ! k =
      (λ k ne. get_or-set_ne arr low k (arr ! h) (pos 0) ne) in
    record {
      above = omega (arith, a);
      ordered = omega arith;
      below = b;
      shorter = omega (arith, a, b);
      size = length-set arr low (arr ! h);
      left = λ k c d. elim (at_or_above k low c) [
        | inl here ↦ rw here (rw at_low (omega (arith, less)))
        | inr there ↦ upto k there d
      ];
      right = λ k c d. rw (kept k (omega (arith, a, c))) (passed k c d);
      outside = λ k o. kept k (ground (arith, o, a, b));
      same = λ v.
          occurrences-move v arr low h key (omega (arith, a, b, s)) (omega (arith, b, s))
            (omega (arith, a));
      each = λ P p k c d ne. elim (at_or_above k low c) [
        | inl here ↦ rw here (rw at_low (p h a b))
        | inr there ↦ rw (kept k (omega (arith, there))) (p k (omega (arith, there)) d)
      ];
    }

-- When after that the element at `l` moves to `h`, and the hole is then at `l`.
pub two_moves :
    (arr : List ℤ) (key : ℤ) (low high h l : ℕ)
    → low < h
    → h ≤ high
    → high < length arr
    → ((k : ℕ) → h < k → k ≤ high → key ≤ℤ arr ! k)
    → arr ! h <ℤ key
    → low + 1 ≤ l
    → l < h
    → ((k : ℕ) → low + 1 ≤ k → k < l → set arr low (arr ! h) ! k ≤ℤ key)
    → key <ℤ set arr low (arr ! h) ! l
    → Narrows arr key low high (set (set arr low (arr ! h)) h (set arr low (arr ! h) ! l)) l (h - 1)
two_moves arr key low high h l a b s passed less c d upto more =
    let arr₁ = set arr low (arr ! h) in
    let arr₂ = set arr₁ h (arr₁ ! l) in
    let size₁ : length arr₁ ≡ length arr = length-set arr low (arr ! h) in
    let at_low : arr₁ ! low ≡ arr ! h =
      get_or-set_self arr low (arr ! h) (pos 0) (omega (arith, a, b, s)) in
    let kept₁ : (k : ℕ) → low ≢ k → arr₁ ! k ≡ arr ! k =
      (λ k ne. get_or-set_ne arr low k (arr ! h) (pos 0) ne) in
    let at_h : arr₂ ! h ≡ arr₁ ! l =
      get_or-set_self arr₁ h (arr₁ ! l) (pos 0) (omega (arith, b, s, size₁)) in
    let kept₂ : (k : ℕ) → h ≢ k → arr₂ ! k ≡ arr₁ ! k =
      (λ k ne. get_or-set_ne arr₁ h k (arr₁ ! l) (pos 0) ne) in
    record {
      above = omega (arith, c);
      ordered = omega (arith, d);
      below = omega (arith, b);
      shorter = omega (arith, a, b, c, d);
      size = length-set arr₁ h (arr₁ ! l) ∙ size₁;
      left = λ k e f. rw (kept₂ k (omega (arith, d, f))) (elim (at_or_above k low e) [
        | inl here ↦ rw here (rw at_low (omega (arith, less)))
        | inr there ↦ upto k there f
      ]);
      right = λ k e f. elim (at_or_above k h (omega (arith, e, a))) [
        | inl here ↦ rw here (rw at_h (omega (arith, more)))
        | inr there ↦
            rw (kept₂ k (omega (arith, there)), kept₁ k (omega (arith, there, a)))
              (passed k (omega (arith, there)) f)
      ];
      outside =
          λ k o. rw (kept₂ k (ground (arith, o, a, b)), kept₁ k (ground (arith, o, a, b))) refl;
      same = λ v.
          occurrences-move v arr₁ h l key (omega (arith, b, s, size₁))
            (omega (arith, b, d, s, size₁)) (omega (arith, d))
          ∙ occurrences-move v arr low h key (omega (arith, a, b, s)) (omega (arith, b, s))
              (omega (arith, a));
      each = λ P p k e f ne. elim (Bool-cases (k == h)) [
        | inl here ↦
            rw (same_index k h here)
              (rw (at_h, kept₁ l (omega (arith, c))) (p l (omega (arith, c)) (omega (arith, b, d))))
        | inr there ↦ rw (kept₂ k (ground (arith, there))) (elim (at_or_above k low e) [
          | inl at ↦ rw at (rw at_low (p h a b))
          | inr over ↦ rw (kept₁ k (omega (arith, over))) (p k (omega (arith, over)) f)
        ])
      ];
    }
