-- ===== src/ExprTree/Meaning.antt =====
-- Expressions with their value, their postfix notation, their tree, and what is to be printed.
use code_snippet.Prelude.{
  ℕ, suc, ◌≢◌, ◌+◌, Option, some, List, [], ◌∷◌, ◌++◌, ℤ, pos, ◌+ℤ◌, ◌-ℤ◌, ◌*ℤ◌, checked, ◌>>=◌,
}
use Prim.Native.Nat.{max}
use code_snippet.Prelude.Division.{int_div, int_mod}
use code_snippet.BinTree.{Tree, null, node}
use code_snippet.Postfix.{atoi}
use code_snippet.Postfix.Meaning.{IsNumeral}
use code_snippet.ExprTree.{Printed, num, sign, bracket_open, bracket_close}

pub data Op : Type 0 where
  add sub mul div rem : Op

pub data Expr : Type 0 where
  lit : List ℕ → Expr
  bin : Op → Expr → Expr → Expr

abbrev pub code : Op → ℕ
code add = b'+'
code sub = b'-'
code mul = b'*'
code div = b'/'
code rem = b'%'

abbrev pub eval_op : Op → ℤ → ℤ → Option ℤ
eval_op add a b = checked (a +ℤ b)
eval_op sub a b = checked (a -ℤ b)
eval_op mul a b = checked (a *ℤ b)
eval_op div a b = int_div a b
eval_op rem a b = int_mod a b

abbrev pub eval : Expr → Option ℤ
eval (lit ds) = some (atoi ds)
eval (bin op l r) = do a ← eval l; b ← eval r; eval_op op a b

abbrev pub tree : Expr → Tree
tree (lit ds) = node (atoi ds) null null
tree (bin op l r) = node (pos (code op)) (tree l) (tree r)

abbrev pub text : Expr → List ℕ → List ℕ
text (lit ds) rest = ds ++ rest
text (bin op l r) rest = text l (32 ∷ text r (32 ∷ code op ∷ rest))

-- The elements of the stack that the tree takes to build.
abbrev pub need : Expr → ℕ
need (lit ds) = 1
need (bin op l r) = max (need l) (suc (need r))

abbrev pub tokens : Expr → ℕ
tokens (lit ds) = 1
tokens (bin op l r) = tokens l + (tokens r + 1)

-- The numbers are numerals, and none is the code of an operator, which would be printed as one.
abbrev pub IsPlain : Expr → Type 0
IsPlain (lit ds) = IsNumeral ds × ((op : Op) → atoi ds ≢ pos (code op))
IsPlain (bin op l r) = IsPlain l × IsPlain r

abbrev pub postfix_form : Expr → List Printed
postfix_form (lit ds) = num (atoi ds) ∷ []
postfix_form (bin op l r) = postfix_form l ++ (postfix_form r ++ (sign (pos (code op)) ∷ []))

abbrev pub infix_form : Expr → List Printed
infix_form (lit ds) = num (atoi ds) ∷ []
infix_form (bin op l r) =
    (bracket_open ∷ infix_form l)
    ++ ((bracket_close ∷ sign (pos (code op)) ∷ bracket_open ∷ infix_form r)
        ++ (bracket_close ∷ []))
