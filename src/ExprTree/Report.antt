-- ===== src/ExprTree/Report.antt =====
-- A run of `main` on lines of postfix notation.
use code_snippet.Prelude.{
  ℕ, suc, ◌+◌, ◌≡◌, ◌≤◌, refl, ap, sym, ◌∙◌, append_assoc, append-nil, Bool, true, some, List, [],
  ◌∷◌, ◌++◌, map, ℤ, length, length-append, All, arith,
}
use code_snippet.BinTree.{Tree}
use code_snippet.ExprTree.{Printed, result, max_buf_size, Machine, loop, report_all, main}
use code_snippet.ExprTree.Meaning.{
  Expr, eval, tree, text, need, tokens, IsPlain, postfix_form, infix_form,
}
use code_snippet.ExprTree.Build.{tree_turns, newline_turn, end_turn}
use code_snippet.ExprTree.Value.{report-tree}

-- One expression to a line.
abbrev pub lines : List Expr → List ℕ
lines [] = []
lines (e ∷ es) = text e (10 ∷ lines es)

-- What is to be printed for expressions with their values.
abbrev pub reports : List (Expr × ℤ) → List Printed
reports [] = []
reports (e ∷ es) = postfix_form e.0 ++ (infix_form e.0 ++ (result e.1 ∷ [])) ++ reports es

abbrev pub rounds : List Expr → ℕ
rounds [] = 1
rounds (e ∷ es) = tokens e + suc (rounds es)

abbrev pub AreValued : List (Expr × ℤ) → Type 0
AreValued es = All (λ e. IsPlain e.0 × (need e.0 ≤ max_buf_size) × (eval e.0 ≡ some e.1)) es

abbrev pub exprs : List (Expr × ℤ) → List Expr
exprs es = map (λ e. e.0) es

loop-lines :
    (alloc : List ℕ → Bool) (es : List (Expr × ℤ)) (fuel : ℕ) (roots : List Tree)
    → ((cs : List ℕ) → alloc cs ≡ true)
    → AreValued es
    → length roots + length es ≤ 8
    → loop alloc
        (rounds (exprs es) + fuel)
        (lines (exprs es))
        (record { stack = []; roots = roots })
      ≡ some (record { stack = []; roots = roots ++ map tree (exprs es) })
loop-lines alloc [] fuel roots allocated valued room =
    ap (λ k. loop alloc k [] (record { stack = []; roots = roots })) one_more
    ∙ end_turn alloc fuel (record { stack = []; roots = roots })
    ∙ ap (λ rs. some (record { stack = []; roots = rs })) (sym (append-nil roots))
  where
    one_more : 1 + fuel ≡ suc fuel
    one_more = omega arith
loop-lines alloc (e ∷ es) fuel roots allocated valued room =
    let rest = lines (exprs es) in
    let start : Machine = record { stack = []; roots = roots } in
    let more : length (roots ++ (tree e.0 ∷ [])) ≡ length roots + 1 =
      length-append roots (tree e.0 ∷ []) in
    ap (λ k. loop alloc k (text e.0 (10 ∷ rest)) start)
      (regrouped (tokens e.0) (rounds (exprs es)) fuel)
    ∙ tree_turns alloc e.0 (suc (rounds (exprs es) + fuel)) 10 rest start allocated valued.0.0
        (refl, omega arith) (omega (arith, valued.0.1))
    ∙ newline_turn alloc (rounds (exprs es) + fuel) rest roots [] (tree e.0) (omega (arith, room))
    ∙ loop-lines alloc es fuel (roots ++ (tree e.0 ∷ [])) allocated valued.1
        (omega (arith, room, more))
    ∙ ap (λ rs. some (record { stack = []; roots = rs }))
        (append_assoc roots (tree e.0 ∷ []) (map tree (exprs es)))
  where
    regrouped : (a b c : ℕ) → a + suc b + c ≡ a + suc (b + c)
    regrouped a b c = omega arith

report_all-tree :
    (es : List (Expr × ℤ)) → AreValued es → report_all (map tree (exprs es)) ≡ some (reports es)
unfolding report_all
report_all-tree [] valued = refl
report_all-tree (e ∷ es) valued =
    rw (report-tree e.0 e.1 valued.0.0 valued.0.2, report_all-tree es valued.1) refl

-- Up to eight lines, each with the postfix notation of an expression that has a value, whose numbers
-- have at most seven digits and are other than the codes of the five operators, and whose tree the
-- stack has room for; memory that does not run out; and at least a round of fuel for each token, each
-- line and the end: `main` prints for each expression in turn its postfix notation, its infix
-- notation with all brackets, and its value.
pub main-lines :
    (alloc : List ℕ → Bool) (es : List (Expr × ℤ)) (fuel : ℕ)
    → ((cs : List ℕ) → alloc cs ≡ true)
    → AreValued es
    → length es ≤ 8
    → main alloc (rounds (exprs es) + fuel) (lines (exprs es)) ≡ some (reports es)
unfolding main
main-lines alloc es fuel allocated valued room =
    rw (loop-lines alloc es fuel [] allocated valued (omega (arith, room)))
      (report_all-tree es valued)
