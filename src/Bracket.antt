-- ===== src/Bracket.antt =====
-- The bracket counters: `caculate` of algorithm/stack/app/bracketMatch.c over a stack of
-- seqstack.c. The stack is a parameter, since exam/haier/bracketMatch.c runs the same loop over a
-- stack of its own. A text is the list of its codes.
pub mod Nesting
pub mod Grammar
pub mod Overflow
pub mod Programs
mod Tests
use code_snippet.Prelude.{
  ℕ, ◌+◌, ◌≡◌, Bool, true, false, Option, none, some, List, [], ◌∷◌, ℤ, pos, ◌==◌, ◌==ℤ◌, ◌>>=◌,
  if◌then◌else◌,
}
use code_snippet.Stack.Api.{StackApi}
use code_snippet.Stack.Lifo.{failure}

abbrev pub open_bracket : ℕ
open_bracket = b'('

abbrev pub close_bracket : ℕ
close_bracket = b')'

module _ (api : StackApi) where
  open api use {State, push, pop, is_empty, destroy}

  -- The `for` loop: the count, or `none` where the code goes to `err`. The status of a push is
  -- not read.
  unfoldable pub scan : List ℕ → ℕ → State → Option (Option ℕ × State)
  scan [] count s = some (some count, s)
  scan (p ∷ ps) count s =
      if p == open_bracket
      then (do (_, t) ← push s (pos p); scan ps count t)
      else if p == close_bracket
      then (do
        (_, q, t) ← pop s (pos 0)
        if q ==ℤ pos open_bracket then scan ps (count + 1) t else some (none, t))
      else scan ps count s

  -- `return`, after `stack_destory`.
  unfoldable pub finish : ℤ → State → Option (ℤ × State)
  finish result s = do (_, t) ← destroy s; some (result, t)

  -- What follows the loop: the label `err`, or the test that nothing is left open.
  unfoldable pub settle : Option ℕ → State → Option (ℤ × State)
  unfolding finish
  settle none s = finish failure s
  settle (some count) s = do
    empty ← is_empty s
    if empty then finish (pos count) s else finish failure s

  -- `caculate`, with the stack that `stack_init` returned.
  unfoldable pub calculate_from : List ℕ → ℕ → State → Option (ℤ × State)
  calculate_from text count s = do (counted, t) ← scan text count s; settle counted t

  unfoldable pub calculate : List ℕ → State → Option (ℤ × State)
  unfolding scan settle calculate_from
  calculate text s = calculate_from text 0 s
