-- ===== src/Prelude/Tests.antt =====
-- Boolean tests on the native numbers, the conditional, and case splits that keep the equation.
use Prim.Native.Nat.{ℕ, ◌+◌, ◌-◌, ◌≤◌, ◌<◌, compare, Ordering}
use mathlib.Core.Path.{◌≡◌, refl}
use mathlib.Core.Logic.{◌↔◌, ◌⊎◌, inl, inr}
use mathlib.Core.Bool.{Bool, true, false}
use mathlib.Core.Option.{Option, none, some}
use native.Mathlib.Omega.{arith}

abbrev pub ltb : ℕ → ℕ → Bool
ltb a b = elim (compare a b) [ Ordering.lt ↦ true | _ ↦ false ]

abbrev pub leb : ℕ → ℕ → Bool
leb a b = elim (compare a b) [ Ordering.gt ↦ false | _ ↦ true ]

infix 50 ◌==◌
abbrev pub ◌==◌ : ℕ → ℕ → Bool
a == b = elim (compare a b) [ Ordering.eq ↦ true | _ ↦ false ]

infix 1 if◌then◌else◌
abbrev pub if◌then◌else◌ {ℓ} : {A : Type ℓ} → Bool → A → A → A
if true then x else y = x
if false then x else y = y

pub ltb→lt : (a b : ℕ) → ltb a b ≡ true → a < b
ltb→lt a b h = ground arith

pub lt→ltb : (a b : ℕ) → a < b → ltb a b ≡ true
lt→ltb a b h = ground arith

pub leb→le : (a b : ℕ) → leb a b ≡ true → a ≤ b
leb→le a b h = ground arith

pub ==_iff : (a b : ℕ) → ((a == b) ≡ true) ↔ (a ≡ b)
==_iff a b = ground arith

pub Bool-cases : (b : Bool) → (b ≡ true) ⊎ (b ≡ false)
Bool-cases true = inl refl
Bool-cases false = inr refl

pub Option-cases {ℓ} : {A : Type ℓ} (o : Option A) → (o ≡ none) ⊎ ((a : A) × (o ≡ some a))
Option-cases none = inl refl
Option-cases (some a) = inr (a, refl)

-- Where a number lies next to another one.
pub same_index : (k n : ℕ) → (k == n) ≡ true → k ≡ n
same_index k n h = ground (arith, h)

pub at_or_below : (k n : ℕ) → k ≤ n → (k ≡ n) ⊎ (k ≤ n - 1)
at_or_below k n h = elim (Bool-cases (k == n)) [
  | inl same ↦ inl (ground (arith, same))
  | inr apart ↦ inr (ground (arith, h, apart))
]

pub at_or_above : (k n : ℕ) → n ≤ k → (k ≡ n) ⊎ (n + 1 ≤ k)
at_or_above k n h = elim (Bool-cases (k == n)) [
  | inl same ↦ inl (ground (arith, same))
  | inr apart ↦ inr (ground (arith, h, apart))
]

pub side : (k m : ℕ) → (k < m) ⊎ (k ≡ m) ⊎ (m < k)
side k m = elim (Bool-cases (k == m)) [
  | inl same ↦ inr (inl (same_index k m same))
  | inr apart ↦ elim (Bool-cases (ltb k m)) [
    | inl below ↦ inl (ground (arith, below))
    | inr not_below ↦ inr (inr (ground (arith, apart, not_below)))
  ]
]
