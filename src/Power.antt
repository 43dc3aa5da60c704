-- ===== src/Power.antt =====
-- algorithm/stack/app/powerExpression.c: `caculate`, towers of powers on a stack. Arithmetic that
-- leaves the range of `long` is `none`.
pub mod Exponents
pub mod Tower
mod Tests
use code_snippet.Prelude.{
  ℕ, zero, suc, ◌+◌, ◌-◌, ◌*◌, ◌^◌, Bool, true, false, ◌&&◌, Option, none, some, List, [], ◌∷◌, ℤ,
  pos, pos_part, neg_part, ◌*ℤ◌, ltb, leb, ◌==◌, if◌then◌else◌, ◌>>=◌,
}
use code_snippet.Prelude.Arrays.{get_elem?}
use code_snippet.Stack.Api.{StackApi}

abbrev pub checked_long : ℤ → Option ℤ
checked_long a = if ltb (pos_part a) (2 ^ 63) && leb (neg_part a) (2 ^ 63) then some a else none

unfoldable pub multiply : (rounds : ℕ) → (x ret : ℤ) → Option ℤ
multiply zero x ret = some ret
multiply (suc rounds) x ret = do r ← checked_long (ret *ℤ x); multiply rounds x r

-- `x` to the power of `y`: 1 for a negative `y`. `i` is an `int`, which a greater `y` overflows.
unfoldable pub power : (x y : ℤ) → Option ℤ
power x y = if ltb (pos_part y) (2 ^ 31) then multiply (pos_part y) x (pos 1) else none

module _ (api : StackApi) where
  open api use {State, cap, push, pop, is_empty, destroy}

  unfoldable pub push_from : (rounds i : ℕ) → List ℤ → State → Option State
  push_from zero i arr s = some s
  push_from (suc rounds) i arr s = do
    v ← get_elem? arr i
    (_, t) ← push s v
    push_from rounds (i + 1) arr t

  -- The `while` loop, with the values of `y`, `x` and `ret`.
  unfoldable pub pop_loop : (fuel : ℕ) → (y x : ℤ) → Option ℤ → State → Option (Option ℤ × State)
  pop_loop zero y x ret s = none
  pop_loop (suc fuel) y x ret s = do
    empty ← is_empty s
    if empty
        then some (ret, s)
        else (do (_, x', t) ← pop s x; r ← power x' y; pop_loop fuel r x' (some r) t)

  -- `caculate` on the stack that `stack_init` gives, with what `x` holds; `ret` starts without a
  -- value.
  unfoldable pub caculate : State → (x : ℤ) → List ℤ → (n : ℕ) → Option ℤ
  unfolding push_from pop_loop
  caculate s x arr n = if n == 1 then get_elem? arr 0 else (do
    s₁ ← push_from (n - 1) 0 arr s
    y ← get_elem? arr (n - 1)
    (ret, s₂) ← pop_loop (cap + 1) y x none s₁
    _ ← destroy s₂
    ret)
