-- ===== src/Postfix.antt =====
-- algorithm/stack/app/postfixExpression.c: a calculator that reads postfix expressions and prints
-- the top of its stack at each line's end. The input is the list of the codes that `getchar`
-- returns before EOF.
pub mod Meaning
pub mod Correct
pub mod Fuel
mod Tests
use code_snippet.Prelude.{
  ℕ, zero, suc, ◌+◌, ◌-◌, ◌*◌, Bool, ◌&&◌, ◌||◌, Option, none, some, List, [], ◌∷◌, ◌++◌, ℤ, pos,
  ◌+ℤ◌, ◌-ℤ◌, ◌*ℤ◌, checked, leb, ◌==◌, ◌>>=◌, if◌then◌else◌, true, false,
}
use code_snippet.Prelude.Division.{int_div}
use code_snippet.Stack.Api.{StackApi}

abbrev pub is_digit : ℕ → Bool
is_digit c = leb b'0' c && leb c b'9'

abbrev pub is_blank : ℕ → Bool
is_blank c = c == 32 || c == 9

-- What a `char` equal to EOF holds: -1, the byte 255.
abbrev pub eof_byte : ℕ
eof_byte = 255

-- A negative `char`, which `isdigit` and `isalpha` are not defined on unless it is EOF.
abbrev pub is_negative : ℕ → Bool
is_negative c = leb 128 c

-- END, NUMBER with the digits that `s` holds, OPERATOR with `s[0]`.
pub data Token : Type 0 where
  end : Token
  number : List ℕ → Token
  operator : ℕ → Token

unfoldable pub skip : List ℕ → List ℕ
skip [] = []
skip (c ∷ cs) = if is_blank c then skip cs else c ∷ cs

-- `while (isdigit(s[++i] = getchar()))`, where `room` elements of `s` are left behind `s[i]`. The
-- character that ends the loop is written too, EOF included, and put back unless the `char` is EOF.
-- Without room the write is out of bounds.
unfoldable pub collect : ℕ → List ℕ → Option (List ℕ × List ℕ)
collect zero cs = none
collect (suc room) [] = some ([], [])
collect (suc room) (c ∷ cs) =
    if is_digit c
    then (do (ds, rest) ← collect room cs; some (c ∷ ds, rest))
    else if c == eof_byte
    then some ([], cs)
    else if is_negative c
    then none
    else some ([], c ∷ cs)

-- `getop` on a buffer of 8 characters, after the blanks.
unfoldable pub next_token : List ℕ → Option (Token × List ℕ)
unfolding collect
next_token [] = some (end, [])
next_token (c ∷ cs) =
    if c == eof_byte
    then some (end, cs)
    else if is_negative c
    then none
    else if is_digit c
    then (do (ds, rest) ← collect 7 cs; some (number (c ∷ ds), rest))
    else some (operator c, cs)

unfoldable pub getop : List ℕ → Option (Token × List ℕ)
unfolding skip next_token
getop cs = next_token (skip cs)

-- `atoi` on digits.
unfoldable pub atoi_from : ℕ → List ℕ → ℕ
atoi_from acc [] = acc
atoi_from acc (d ∷ ds) = atoi_from (acc * 10 + (d - b'0')) ds

unfoldable pub atoi : List ℕ → ℤ
unfolding atoi_from
atoi ds = pos (atoi_from 0 ds)

-- What `main` writes: a value to stdout, or an unknown operator to stderr.
pub data Output : Type 0 where
  value : ℤ → Output
  unknown : ℕ → Output

module _ (api : StackApi) where
  open api use {State, push, pop}

  -- The variables of `main`. `op1` and `op2` keep what they hold when a pop fails; they start
  -- without a value.
  pub record Machine : Type 0 where
    pub stack : State
    pub op1 : ℤ
    pub op2 : ℤ
    pub out : List Output

  unfoldable pub binary : (ℤ → ℤ → Option ℤ) → Machine → Option Machine
  binary f m = do
    (_, op2, t) ← pop m.stack m.op2
    (_, op1, u) ← pop t m.op1
    v ← f op1 op2
    (_, w) ← push u v
    some (record m { stack = w; op1 = op1; op2 = op2 })

  unfoldable pub print_top : Machine → Option Machine
  print_top m = do
    (_, op1, t) ← pop m.stack m.op1
    some (record m { stack = t; op1 = op1; out = m.out ++ (value op1 ∷ []) })

  unfoldable pub operate : ℕ → Machine → Option Machine
  unfolding binary print_top
  operate c m =
      if c == b'+'
      then binary (λ a b. checked (a +ℤ b)) m
      else if c == b'-'
      then binary (λ a b. checked (a -ℤ b)) m
      else if c == b'*'
      then binary (λ a b. checked (a *ℤ b)) m
      else if c == b'/'
      then binary int_div m
      else if c == 10
      then print_top m
      else some (record m { out = m.out ++ (unknown c ∷ []) })

  -- The loop of `main` on fuel; `none` is an undefined step, or no fuel left. Every round but the
  -- last takes a character from the input.
  unfoldable pub loop : ℕ → List ℕ → Machine → Option Machine
  loop zero cs m = none
  loop (suc fuel) cs m = do
    (token, rest) ← getop cs
    elim token [
      | end ↦ some m
      | number ds ↦ do (_, t) ← push m.stack (atoi ds); loop fuel rest (record m { stack = t })
      | operator c ↦ do m' ← operate c m; loop fuel rest m'
    ]
