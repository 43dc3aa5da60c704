-- ===== src/Sort/Quick/Scan.antt =====
-- The steps of the loop of `partition`: the two scans, the two moves.
use code_snippet.Prelude.{
  ℕ, zero, suc, ◌+◌, ◌-◌, ◌≡◌, ◌≢◌, ◌≤◌, ◌<◌, ◌⊎◌, inl, inr, refl, some, List, [], ◌∷◌, ℤ, pos,
  ◌≤ℤ◌, ◌<ℤ◌, ltb_ℤ, ltb, ◌==ℤ◌, if◌then◌else◌, length, arith, true, Bool-cases, at_or_below,
  at_or_above,
}
use code_snippet.Prelude.Arrays.{
  get_elem?, get_or, set, store-set, get_elem?-get_or, length-set, get_or-set_ne,
}
use code_snippet.Sort.Order.{occurrences}
use code_snippet.Sort.Quick.{scan_down, scan_up, move_down, move_up}

infix 60 ◌!◌
abbrev pub ◌!◌ : List ℤ → ℕ → ℤ
arr ! k = get_or arr k (pos 0)

pub get-! : (arr : List ℤ) (k : ℕ) → k < length arr → get_elem? arr k ≡ some (arr ! k)
get-! arr k h = get_elem?-get_or arr k (pos 0) h

pub scan_down-stops :
    (rounds : ℕ) (arr : List ℤ) (key : ℤ) (low high : ℕ)
    → high ≡ low + rounds
    → high < length arr
    → (h : ℕ) × (scan_down rounds arr key high ≡ some h)
      × (low ≤ h)
      × (h ≤ high)
      × ((k : ℕ) → h < k → k ≤ high → key ≤ℤ arr ! k)
      × ((h ≡ low) ⊎ (arr ! h <ℤ key))
unfolding scan_down
scan_down-stops zero arr key low high e s = (
  high,
  refl,
  omega (arith, e),
  omega arith,
  (λ k a b. absurd (omega (arith, a, b))),
  inl (omega (arith, e)),
)
scan_down-stops (suc rounds) arr key low high e s = elim (Bool-cases (ltb_ℤ (arr ! high) key)) [
  | inl less ↦ (
    high,
    rw (get-! arr high s, less) refl,
    omega (arith, e),
    omega arith,
    (λ k a b. absurd (omega (arith, a, b))),
    inr (ground (arith, less)),
  )
  | inr not_less ↦
      let (h, runs, above, below, passed, stop) =
        scan_down-stops rounds arr key low (high - 1) (omega (arith, e)) (omega (arith, e, s)) in
      (
        h,
        rw (get-! arr high s, not_less) runs,
        above,
        omega (arith, below),
        (λ k a b. elim (at_or_below k high b) [
          | inl at_high ↦ rw at_high (ground (arith, not_less))
          | inr under ↦ passed k a under
        ]),
        stop,
      )
]

pub scan_up-stops :
    (rounds : ℕ) (arr : List ℤ) (key : ℤ) (low high : ℕ)
    → high ≡ low + rounds
    → high < length arr
    → (l : ℕ) × (scan_up rounds arr key low ≡ some l)
      × (low ≤ l)
      × (l ≤ high)
      × ((k : ℕ) → low ≤ k → k < l → arr ! k ≤ℤ key)
      × ((l ≡ high) ⊎ (key <ℤ arr ! l))
unfolding scan_up
scan_up-stops zero arr key low high e s = (
  low,
  refl,
  omega arith,
  omega (arith, e),
  (λ k a b. absurd (omega (arith, a, b))),
  inl (omega (arith, e)),
)
scan_up-stops (suc rounds) arr key low high e s = elim (Bool-cases (ltb_ℤ key (arr ! low))) [
  | inl more ↦ (
    low,
    rw (get-! arr low (omega (arith, e, s)), more) refl,
    omega arith,
    omega (arith, e),
    (λ k a b. absurd (omega (arith, a, b))),
    inr (ground (arith, more)),
  )
  | inr not_more ↦
      let (l, runs, above, below, passed, stop) =
        scan_up-stops rounds arr key (low + 1) high (omega (arith, e)) s in
      (
        l,
        rw (get-! arr low (omega (arith, e, s)), not_more) runs,
        omega (arith, above),
        below,
        (λ k a b. elim (at_or_above k low a) [
          | inl at_low ↦ rw at_low (ground (arith, not_more))
          | inr over ↦ passed k over b
        ]),
        stop,
      )
]

pub move_down-eq :
    (arr : List ℤ) (low high : ℕ)
    → low < high
    → high < length arr
    → move_down arr low high ≡ some (set arr low (arr ! high), low + 1)
unfolding move_down
move_down-eq arr low high h s =
    let test : ltb low high ≡ true = ground (arith, h) in
    rw (test, get-! arr high s, store-set arr low (arr ! high) (omega (arith, h, s))) refl

pub move_up-eq :
    (arr : List ℤ) (low high : ℕ)
    → low < high
    → high < length arr
    → move_up arr low high ≡ some (set arr high (arr ! low), high - 1)
unfolding move_up
move_up-eq arr low high h s =
    let test : ltb low high ≡ true = ground (arith, h) in
    rw (test, get-! arr low (omega (arith, h, s)), store-set arr high (arr ! low) s) refl

abbrev pub bit : ℤ → ℤ → ℕ
bit v x = if x ==ℤ v then 1 else 0

pub occurrences-set :
    (v : ℤ) (arr : List ℤ) (k : ℕ) (x : ℤ)
    → k < length arr
    → occurrences v (set arr k x) + bit v (arr ! k) ≡ occurrences v arr + bit v x
occurrences-set v [] k x h = absurd (omega (arith, h))
occurrences-set v (y ∷ ys) zero x h = omega arith
occurrences-set v (y ∷ ys) (suc k) x h = omega (arith, occurrences-set v ys k x (omega (arith, h)))

-- An element that moves into the hole at `i` leaves the hole at `j`: with the pivot in the hole the
-- elements are the same.
pub occurrences-move :
    (v : ℤ) (arr : List ℤ) (i j : ℕ) (key : ℤ)
    → i < length arr
    → j < length arr
    → i ≢ j
    → occurrences v (set (set arr i (arr ! j)) j key) ≡ occurrences v (set arr i key)
occurrences-move v arr i j key hi hj ne =
    let kept : set arr i (arr ! j) ! j ≡ arr ! j = get_or-set_ne arr i j (arr ! j) (pos 0) ne in
    let second =
      occurrences-set v (set arr i (arr ! j)) j key
        (omega (arith, hj, length-set arr i (arr ! j))) in
    omega (
      arith,
      rw kept at second,
      occurrences-set v arr i (arr ! j) hi,
      occurrences-set v arr i key hi,
    )
