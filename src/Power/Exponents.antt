-- ===== src/Power/Exponents.antt =====
-- Powers by repeated multiplication: where every partial power fits into `long`, the last of them.
use code_snippet.Prelude.{
  ℕ, zero, suc, ◌+◌, ◌-◌, ◌^◌, ◌≡◌, refl, Bool, true, false, ◌&&◌, Bool-cases, inl, inr, Option,
  none, some, ℤ, pos, pos_part, neg_part, ◌*ℤ◌, ltb, leb, if◌then◌else◌, arith,
}
use mathlib.Core.Path.{subst}
use code_snippet.Power.{checked_long, multiply, power}

unfoldable pub pow : ℤ → ℕ → ℤ
pow x zero = pos 1
pow x (suc n) = pow x n *ℤ x

-- From -2 ^ 63 to 2 ^ 63 - 1.
abbrev pub in_long : ℤ → Bool
in_long a = leb (pos_part a) (2 ^ 63 - 1) && leb (neg_part a) (2 ^ 63)

-- The powers with exponents up to `n` are in the range of `long`.
unfoldable pub fits : ℤ → ℕ → Bool
unfolding pow
fits x zero = true
fits x (suc n) = fits x n && in_long (pow x (suc n))

-- The power, if its exponent is an `int` and it and those below it are in range. A negative
-- exponent counts as 0.
abbrev pub raised : ℤ → ℤ → Option ℤ
raised x y =
    if ltb (pos_part y) (2 ^ 31) && fits x (pos_part y) then some (pow x (pos_part y)) else none

checked_long-in_long : (a : ℤ) → checked_long a ≡ (if in_long a then some a else none)
checked_long-in_long a = ground arith

fits-below : (x : ℤ) (m k t : ℕ) → k + m ≡ t → fits x k ≡ false → fits x t ≡ false
unfolding fits
fits-below x zero k t e h =
    let same : k ≡ t = omega (arith, e) in subst (λ n. fits x n ≡ false) same h
fits-below x (suc m) k t e h =
    let last : suc (k + m) ≡ t = omega (arith, e) in
    subst (λ n. fits x n ≡ false) last (rw (fits-below x m k (k + m) refl h, fits) refl)

multiply-fits :
    (x : ℤ) (n k t : ℕ)
    → k + n ≡ t
    → fits x k ≡ true
    → multiply n x (pow x k) ≡ (if fits x t then some (pow x t) else none)
unfolding multiply pow fits
multiply-fits x zero k t e h =
    let same : k ≡ t = omega (arith, e) in
    subst (λ n. some (pow x k) ≡ (if fits x n then some (pow x n) else none)) same (rw h refl)
multiply-fits x (suc n) k t e h = elim (Bool-cases (in_long (pow x (suc k)))) [
  | inl inside ↦
      rw (checked_long-in_long (pow x (suc k)), inside)
        (multiply-fits x n (suc k) t (omega (arith, e)) (rw (h, inside) refl))
  | inr outside ↦
      rw
        (
          checked_long-in_long (pow x (suc k)),
          outside,
          fits-below x n (suc k) t (omega (arith, e)) (rw (h, outside) refl),
        )
        refl
]

pub power-raised : (x y : ℤ) → power x y ≡ raised x y
unfolding power fits
power-raised x y = elim (Bool-cases (ltb (pos_part y) (2 ^ 31))) [
  | inl small ↦ rw small (multiply-fits x (pos_part y) 0 (pos_part y) (omega arith) refl)
  | inr great ↦ rw great refl
]
