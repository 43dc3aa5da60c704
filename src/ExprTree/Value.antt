-- ===== src/ExprTree/Value.antt =====
-- The value of an expression's tree, and what is printed of it.
use code_snippet.Prelude.{
  ◌≢◌, ==ℤ_iff, Bool-cases, inl, inr, ◌==ℤ◌, ◌≡◌, refl, ap, ◌∙◌, fun_ext, append_assoc, false, some,
  List, [], ◌∷◌, ◌++◌, ℤ, pos, ◌>>=◌,
}
use code_snippet.BinTree.{postorder}
use code_snippet.Postfix.{atoi}
use code_snippet.ExprTree.{
  Printed, num, sign, result, printf_data, is_null, inorder_fn, apply, caculate, report,
}
use code_snippet.ExprTree.Meaning.{
  IsPlain, Op, add, sub, mul, div, rem, Expr, lit, bin, code, eval_op, eval, tree, postfix_form,
  infix_form,
}

tree-is_null : (e : Expr) → is_null (tree e) ≡ false
tree-is_null (lit ds) = refl
tree-is_null (bin op l r) = refl

apply-code : (op : Op) (a b : ℤ) → apply (pos (code op)) a b ≡ eval_op op a b
unfolding apply
apply-code add a b = refl
apply-code sub a b = refl
apply-code mul a b = refl
apply-code div a b = refl
apply-code rem a b = refl

printf_data-code : (op : Op) → printf_data (pos (code op)) ≡ sign (pos (code op))
unfolding printf_data
printf_data-code add = refl
printf_data-code sub = refl
printf_data-code mul = refl
printf_data-code div = refl
printf_data-code rem = refl

other_number : (n : ℤ) (op : Op) → n ≢ pos (code op) → (n ==ℤ pos (code op)) ≡ false
other_number n op h = elim (Bool-cases (n ==ℤ pos (code op))) [
  | inl same ↦ absurd (h ((==ℤ_iff n (pos (code op))).0 same))
  | inr apart ↦ apart
]

printf_data-num : (n : ℤ) → ((op : Op) → n ≢ pos (code op)) → printf_data n ≡ num n
unfolding printf_data
printf_data-num n other =
    rw
      (
        other_number n add (other add),
        other_number n sub (other sub),
        other_number n mul (other mul),
        other_number n div (other div),
        other_number n rem (other rem),
      )
      refl

-- `caculate` on the tree of an expression gives its value, and is undefined where the expression
-- has none: where a step overflows or divides by zero.
pub caculate-tree : (e : Expr) → caculate (tree e) ≡ eval e
unfolding caculate
caculate-tree (lit ds) = refl
caculate-tree (bin op l r) =
    rw (tree-is_null l, caculate-tree l, caculate-tree r)
      (ap (λ f. eval l >>= λ a. eval r >>= λ b. f a b)
        (fun_ext (λ a. fun_ext (λ b. apply-code op a b))))

pub inorder_fn-tree : (e : Expr) → IsPlain e → inorder_fn (tree e) ≡ some (infix_form e)
unfolding inorder_fn
inorder_fn-tree (lit ds) plain = rw (printf_data-num (atoi ds) plain.1) refl
inorder_fn-tree (bin op l r) plain =
    rw (tree-is_null l, inorder_fn-tree l plain.0, inorder_fn-tree r plain.1, printf_data-code op)
      refl

pub postorder-tree :
    (e : Expr) (out : List Printed)
    → IsPlain e
    → (postorder (λ x out. out ++ (printf_data x ∷ [])) (tree e) out).1 ≡ out ++ postfix_form e
unfolding postorder
postorder-tree (lit ds) out plain = rw (printf_data-num (atoi ds) plain.1) refl
postorder-tree (bin op l r) out plain =
    rw
      (
        postorder-tree l out plain.0,
        postorder-tree r (out ++ postfix_form l) plain.1,
        printf_data-code op,
      )
      (append_assoc (out ++ postfix_form l) (postfix_form r) (sign (pos (code op)) ∷ [])
        ∙ append_assoc out (postfix_form l) (postfix_form r ++ (sign (pos (code op)) ∷ [])))

-- The report on the tree of an expression with a value: its postfix notation, its infix notation
-- with all brackets, and its value.
pub report-tree :
    (e : Expr) (v : ℤ)
    → IsPlain e
    → eval e ≡ some v
    → report (tree e) ≡ some (postfix_form e ++ (infix_form e ++ (result v ∷ [])))
unfolding report
report-tree e v plain h =
    rw (postorder-tree e [] plain, inorder_fn-tree e plain, caculate-tree e, h) refl
