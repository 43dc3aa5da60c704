-- ===== src/Postfix/Meaning.antt =====
-- Expressions, their value, and their postfix notation.
use code_snippet.Prelude.{
  ℕ, suc, ◌+◌, ◌≤◌, ◌<◌, ◌≡◌, Option, some, List, ◌∷◌, ◌++◌, ℤ, ◌+ℤ◌, ◌-ℤ◌, ◌*ℤ◌, checked, ◌>>=◌,
  length, All, true,
}
use Prim.Native.Nat.{max}
use code_snippet.Prelude.Division.{int_div}
use code_snippet.Postfix.{is_digit, atoi}

pub data Op : Type 0 where
  add sub mul div : Op

-- A number is given by its digits.
pub data Expr : Type 0 where
  num : List ℕ → Expr
  bin : Op → Expr → Expr → Expr

abbrev pub sign : Op → ℕ
sign add = b'+'
sign sub = b'-'
sign mul = b'*'
sign div = b'/'

unfoldable pub apply : Op → ℤ → ℤ → Option ℤ
apply add a b = checked (a +ℤ b)
apply sub a b = checked (a -ℤ b)
apply mul a b = checked (a *ℤ b)
apply div a b = int_div a b

-- The value, unless the evaluation overflows or divides by zero.
unfoldable pub eval : Expr → Option ℤ
unfolding apply
eval (num ds) = some (atoi ds)
eval (bin op l r) = do a ← eval l; b ← eval r; apply op a b

-- The postfix notation, before what follows it: the operands and the operator, with blanks between.
unfoldable pub text : Expr → List ℕ → List ℕ
text (num ds) rest = ds ++ rest
text (bin op l r) rest = text l (32 ∷ text r (32 ∷ sign op ∷ rest))

-- The elements of a stack that the evaluation uses.
unfoldable pub need : Expr → ℕ
need (num ds) = 1
need (bin op l r) = max (need l) (suc (need r))

-- Every number has digits, and at most seven.
abbrev pub IsNumeral : List ℕ → Type 0
IsNumeral ds = (0 < length ds) × (length ds ≤ 7) × All (λ d. is_digit d ≡ true) ds

abbrev pub IsPlain : Expr → Type 0
IsPlain (num ds) = IsNumeral ds
IsPlain (bin op l r) = IsPlain l × IsPlain r

unfoldable pub tokens : Expr → ℕ
tokens (num ds) = 1
tokens (bin op l r) = tokens l + tokens r + 1
