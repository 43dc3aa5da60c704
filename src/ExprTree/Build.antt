-- ===== src/ExprTree/Build.antt =====
-- The first loop of `main` builds the tree of an expression from its postfix notation.
use code_snippet.Prelude.{
  ℕ, zero, suc, ◌+◌, ◌≡◌, ◌≤◌, ◌<◌, refl, ap, ◌∙◌, Bool, true, false, Option, some, List, [], ◌∷◌,
  ◌++◌, pos, length, leb, ◌==◌, All, arith,
}
use code_snippet.BinTree.{Tree, null, node, leaf}
use code_snippet.Postfix.{is_digit, skip, atoi}
use code_snippet.Postfix.Meaning.{IsNumeral}
use code_snippet.Postfix.Correct.{IsEnding, not_negative, digit-not-blank}
use code_snippet.ExprTree.{
  is_sign, collect, next_token, getop, max_buf_size, push, pop, Machine, combine, end_tree, loop,
}
use code_snippet.ExprTree.Meaning.{
  Op, add, sub, mul, div, rem, Expr, lit, bin, code, tree, text, need, tokens, IsPlain,
}

collect-digits :
    (room : ℕ) (ds : List ℕ) (c : ℕ) (rest : List ℕ)
    → length ds < room
    → All (λ d. is_digit d ≡ true) ds
    → IsEnding c
    → collect room (ds ++ (c ∷ rest)) ≡ some (ds, c ∷ rest)
unfolding collect
collect-digits zero ds c rest h digits ends = absurd (omega (arith, h))
collect-digits (suc room) [] c rest h digits ends = rw (ends.0, not_negative c ends.1) refl
collect-digits (suc room) (d ∷ ds) c rest h digits ends =
    rw (digits.0, collect-digits room ds c rest (omega (arith, h)) digits.1 ends) refl

-- `getop` reads a number up to the character that ends it.
getop-number :
    (ds : List ℕ) (c : ℕ) (rest : List ℕ)
    → IsNumeral ds
    → IsEnding c
    → getop (ds ++ (c ∷ rest)) ≡ some (some 0, ds, c ∷ rest)
unfolding getop skip next_token
getop-number [] c rest plain ends = absurd (omega (arith, plain.0))
getop-number (d ∷ ds) c rest plain ends =
    rw
      (
        digit-not-blank d plain.2.0,
        plain.2.0,
        collect-digits 7 ds c rest (omega (arith, plain.1)) plain.2.1 ends,
      )
      refl

getop-code :
    (op : Op) (rest : List ℕ) → getop (code op ∷ rest) ≡ some (some (code op), code op ∷ [], rest)
unfolding getop skip next_token
getop-code add rest = refl
getop-code sub rest = refl
getop-code mul rest = refl
getop-code div rest = refl
getop-code rem rest = refl

code_not_number : (op : Op) → (code op == 0) ≡ false
code_not_number add = refl
code_not_number sub = refl
code_not_number mul = refl
code_not_number div = refl
code_not_number rem = refl

code-is_sign : (op : Op) → is_sign (pos (code op)) ≡ true
code-is_sign add = refl
code-is_sign sub = refl
code-is_sign mul = refl
code-is_sign div = refl
code-is_sign rem = refl

one_more : (fuel : ℕ) (f : ℕ → Option Machine) → f (1 + fuel) ≡ f (suc fuel)
one_more fuel f = ap f (omega arith)

regroup : (a b fuel : ℕ) (f : ℕ → Option Machine) → f (a + (b + 1) + fuel) ≡ f (a + (b + suc fuel))
regroup a b fuel f = ap f (omega arith)

module _ (alloc : List ℕ → Bool) where
  blank_turn :
      (fuel : ℕ) (cs : List ℕ) (m : Machine) → loop alloc fuel (32 ∷ cs) m ≡ loop alloc fuel cs m
  unfolding loop getop skip
  blank_turn zero cs m = refl
  blank_turn (suc fuel) cs m = refl

  number_turn :
      (fuel : ℕ) (ds : List ℕ) (c : ℕ) (rest : List ℕ) (m : Machine)
      → IsNumeral ds
      → IsEnding c
      → alloc (c ∷ rest) ≡ true
      → length m.stack < max_buf_size
      → loop alloc (suc fuel) (ds ++ (c ∷ rest)) m
        ≡ loop alloc fuel (c ∷ rest) (record m { stack = node (atoi ds) null null ∷ m.stack })
  unfolding loop getop push leaf
  number_turn fuel ds c rest m plain ends allocated room =
      let free : leb max_buf_size (length m.stack) ≡ false = ground (arith, room) in
      rw (getop-number ds c rest plain ends, allocated, free) refl

  sign_turn :
      (fuel : ℕ) (op : Op) (rest : List ℕ) (m : Machine) (l r : Tree) (stack : List Tree)
      → alloc rest ≡ true
      → m.stack ≡ r ∷ l ∷ stack
      → length stack < max_buf_size
      → loop alloc (suc fuel) (code op ∷ rest) m
        ≡ loop alloc fuel rest (record m { stack = node (pos (code op)) l r ∷ stack })
  unfolding loop combine push pop
  sign_turn fuel op rest m l r stack allocated held room =
      let free : leb max_buf_size (length stack) ≡ false = ground (arith, room) in
      rw (getop-code op rest, code_not_number op, code-is_sign op, allocated, held, free) refl

  pub tree_turns :
      (e : Expr) (fuel c : ℕ) (rest : List ℕ) (m : Machine)
      → ((cs : List ℕ) → alloc cs ≡ true)
      → IsPlain e
      → IsEnding c
      → length m.stack + need e ≤ max_buf_size
      → loop alloc (tokens e + fuel) (text e (c ∷ rest)) m
        ≡ loop alloc fuel (c ∷ rest) (record m { stack = tree e ∷ m.stack })
  tree_turns (lit ds) fuel c rest m allocated plain ends room =
      one_more fuel (λ k. loop alloc k (ds ++ (c ∷ rest)) m)
      ∙ number_turn fuel ds c rest m plain.0 ends (allocated (c ∷ rest)) (omega (arith, room))
  tree_turns (bin op l r) fuel c rest m allocated plain ends room =
      let left = text r (32 ∷ code op ∷ c ∷ rest) in
      let m₁ : Machine = record m { stack = tree l ∷ m.stack } in
      let m₂ : Machine = record m { stack = tree r ∷ tree l ∷ m.stack } in
      regroup (tokens l) (tokens r) fuel (λ k. loop alloc k (text l (32 ∷ left)) m)
      ∙ tree_turns l (tokens r + suc fuel) 32 left m allocated plain.0 (refl, omega arith)
          (omega (arith, room))
      ∙ blank_turn (tokens r + suc fuel) left m₁
      ∙ tree_turns r (suc fuel) 32 (code op ∷ c ∷ rest) m₁ allocated plain.1 (refl, omega arith)
          (omega (arith, room))
      ∙ blank_turn (suc fuel) (code op ∷ c ∷ rest) m₂
      ∙ sign_turn fuel op (c ∷ rest) m₂ (tree l) (tree r) m.stack (allocated (c ∷ rest)) refl
          (omega (arith, room))

  pub newline_turn :
      (fuel : ℕ) (rest : List ℕ) (roots stack : List Tree) (t : Tree)
      → length roots < 8
      → loop alloc (suc fuel) (10 ∷ rest) (record { stack = t ∷ stack; roots = roots })
        ≡ loop alloc fuel rest (record { stack = stack; roots = roots ++ (t ∷ []) })
  unfolding loop getop end_tree pop skip next_token
  newline_turn fuel rest roots stack t room =
      let free : leb 8 (length roots) ≡ false = ground (arith, room) in rw free refl

  pub end_turn : (fuel : ℕ) (m : Machine) → loop alloc (suc fuel) [] m ≡ some m
  unfolding loop getop skip next_token
  end_turn fuel m = refl
