-- ===== src/Prelude/Division.antt =====
-- C's `/` and `%` on `int`: the quotient is truncated towards zero, and a zero divisor and a
-- quotient out of range are undefined.
use Prim.Native.Nat.{ℕ, ◌+◌, ◌/◌}
use mathlib.Core.Bool.{Bool, true, false, not}
use mathlib.Core.Option.{Option, none, some}
use code_snippet.Prelude.Tests.{if◌then◌else◌}
use code_snippet.Prelude.Ints.{ℤ, pos, pos_part, neg_part, sub_ℕ, ◌-ℤ◌, ◌*ℤ◌, ltb_ℤ, ◌==ℤ◌, checked}

abbrev pub magnitude : ℤ → ℕ
magnitude a = pos_part a + neg_part a

-- Whether one of two numbers alone is negative.
abbrev pub differ : Bool → Bool → Bool
differ true b = not b
differ false b = b

unfoldable pub quotient : ℤ → ℤ → ℤ
quotient a b =
    let q = magnitude a / magnitude b in
    if differ (ltb_ℤ a (pos 0)) (ltb_ℤ b (pos 0)) then sub_ℕ 0 q else sub_ℕ q 0

unfoldable pub int_div : ℤ → ℤ → Option ℤ
unfolding quotient
int_div a b = if b ==ℤ pos 0 then none else checked (quotient a b)

-- Undefined where the quotient is.
unfoldable pub int_mod : ℤ → ℤ → Option ℤ
unfolding int_div
int_mod a b = elim (int_div a b) [ none ↦ none | some q ↦ checked (a -ℤ q *ℤ b) ]
