-- ===== src/Convert.antt =====
-- algorithm/stack/app/expressionConvert.c: infix expressions to postfix notation. The input is the
-- list of the codes that `getchar` returns before EOF.
pub mod Brackets
pub mod Correct
pub mod Turns
mod Tests
pub mod Notation
pub mod Steps
use code_snippet.Prelude.{
  ℕ, zero, suc, ◌+◌, Bool, true, false, not, ◌&&◌, ◌||◌, Option, none, some, List, [], ◌∷◌, ◌++◌,
  map, ℤ, pos, ◌==ℤ◌, leb, ◌==◌, ◌>>=◌, if◌then◌else◌,
}
use code_snippet.Stack.Lifo.{failure}
use code_snippet.Stack.Api.{StackApi}
use code_snippet.Postfix.{is_digit, is_blank, skip, eof_byte, is_negative}

abbrev pub is_alpha : ℕ → Bool
is_alpha c = (leb b'a' c && leb c b'z') || (leb b'A' c && leb c b'Z')

-- END, ALPHA and NUMBER with the characters that `s` holds, OPERATOR with `s[0]`.
pub data Token : Type 0 where
  end : Token
  alpha : List ℕ → Token
  number : List ℕ → Token
  operator : ℕ → Token

-- `while (is...((s[++i] = getchar())))`, where `room` elements of `s` are left behind `s[i]`. The
-- character that ends the loop is written too, EOF included, and put back unless the `char` is EOF.
unfoldable pub collect : (ℕ → Bool) → ℕ → List ℕ → Option (List ℕ × List ℕ)
collect is_kind zero cs = none
collect is_kind (suc room) [] = some ([], [])
collect is_kind (suc room) (c ∷ cs) =
    if is_kind c
    then (do (ds, rest) ← collect is_kind room cs; some (c ∷ ds, rest))
    else if c == eof_byte
    then some ([], cs)
    else if is_negative c
    then none
    else some ([], c ∷ cs)

-- `getop` on a buffer of 8 characters, after the blanks.
unfoldable pub next_token : List ℕ → Option (Token × List ℕ)
next_token [] = some (end, [])
next_token (c ∷ cs) =
    if c == eof_byte
    then some (end, cs)
    else if is_negative c
    then none
    else if is_alpha c
    then (do (ds, rest) ← collect is_alpha 7 cs; some (alpha (c ∷ ds), rest))
    else if is_digit c
    then (do (ds, rest) ← collect is_digit 7 cs; some (number (c ∷ ds), rest))
    else some (operator c, cs)

unfoldable pub getop : List ℕ → Option (Token × List ℕ)
unfolding skip next_token
getop cs = next_token (skip cs)

abbrev pub open_bracket : ℤ
open_bracket = pos b'('

-- Where the loops of `+` and `-`, and those of `*` and `/`, stop.
abbrev pub is_open : ℤ → Bool
is_open c = c ==ℤ open_bracket

abbrev pub is_weak : ℤ → Bool
is_weak c = c ==ℤ open_bracket || c ==ℤ pos b'+' || c ==ℤ pos b'-'

-- How a run of `main` ends: with a newline after `out`, or with "Error!".
pub data Ending : Type 0 where
  converted : (out : List ℤ) → Ending
  failed : (out : List ℤ) → Ending

module _ (api : StackApi) where
  open api use {State, cap, push, pop}

  -- The variables of `main`; `ch` starts without a value, and keeps what it holds when a pop fails.
  pub record Machine : Type 0 where
    pub stack : State
    pub ch : ℤ
    pub out : List ℤ

  -- `while (stack_pop(stack, &ch) != -1 && ...) putchar(ch);`
  unfoldable pub pop_until : (fuel : ℕ) → (stop : ℤ → Bool) → Machine → Option Machine
  pop_until zero stop m = none
  pop_until (suc fuel) stop m = do
    (status, ch, t) ← pop m.stack m.ch
    let m' = record m { stack = t; ch = ch }
    if status ==ℤ failure
        then some m'
        else if stop ch
        then some m'
        else pop_until fuel stop (record m' { out = m.out ++ (ch ∷ []) })

  unfoldable pub push_char : ℤ → Machine → Option Machine
  push_char c m = do (_, t) ← push m.stack c; some (record m { stack = t })

  -- The cases of `+`, `-`, `*` and `/`.
  unfoldable pub rank : (stop : ℤ → Bool) → ℕ → Machine → Option Machine
  unfolding pop_until push_char
  rank stop c m = do
    m₁ ← pop_until (cap + 1) stop m
    m₂ ← (if stop m₁.ch then push_char m₁.ch m₁ else some m₁)
    push_char (pos c) m₂

  -- A machine to go on with, or the jump to `err`.
  pub data Step : Type 0 where
    go : Machine → Step
    stop_with : List ℤ → Step

  unfoldable pub operate : ℕ → Machine → Option Step
  unfolding rank push_char pop_until
  operate c m =
      if c == b'('
      then (do m' ← push_char open_bracket m; some (go m'))
      else if c == b')'
      then (do
        m' ← pop_until (cap + 1) is_open m
        some (if is_open m'.ch then go m' else stop_with m'.out))
      else if c == b'+' || c == b'-'
      then (do m' ← rank is_open c m; some (go m'))
      else if c == b'*' || c == b'/'
      then (do m' ← rank is_weak c m; some (go m'))
      else some (go m)

  -- What comes after the loop of `main`.
  unfoldable pub finish : Machine → Option Ending
  finish m = do
    m' ← pop_until (cap + 1) is_open m
    some (if is_open m'.ch then failed m'.out else converted m'.out)

  -- The loop of `main` on fuel, up to the end; every round but the last takes a character from
  -- the input. What goes to stderr is left out.
  unfoldable pub loop : ℕ → List ℕ → Machine → Option Ending
  unfolding finish
  loop zero cs m = none
  loop (suc fuel) cs m = do
    (token, rest) ← getop cs
    elim token [
      | end ↦ finish m
      | alpha ds ↦ loop fuel rest (record m { out = m.out ++ map pos ds })
      | number ds ↦ loop fuel rest (record m { out = m.out ++ map pos ds })
      | operator c ↦ do
        step ← operate c m
        elim step [ go m' ↦ loop fuel rest m' | stop_with out ↦ some (failed out) ]
    ]
