-- ===== src/Postfix/Correct.antt =====
-- The calculator prints the value of an expression whose postfix notation it reads.
use code_snippet.Prelude.{
  ℕ, zero, suc, ◌+◌, ◌≤◌, ◌<◌, ◌≡◌, refl, ◌∙◌, ap, true, false, Option, some, List, [], ◌∷◌, ◌++◌,
  ℤ, ◌>>=◌, length, All, arith, >>=-eq-some, ◌==◌,
}
use code_snippet.Stack.Api.{StackApi}
use code_snippet.Stack.Lifo.{success}
use code_snippet.Stack.Steps.{push_room, pop_cons}
use code_snippet.Postfix.{
  is_digit, is_blank, eof_byte, is_negative, number, collect, getop, atoi, value, Machine, binary,
  operate, loop,
}
use code_snippet.Postfix.Meaning.{
  Op, add, sub, mul, div, Expr, num, bin, sign, apply, eval, text, need, IsNumeral, IsPlain, tokens,
}

-- A character that ends a number and stays in the input.
abbrev pub IsEnding : ℕ → Type 0
IsEnding c = (is_digit c ≡ false) × (c < 128)

pub not_eof : (c : ℕ) → c < 128 → (c == eof_byte) ≡ false
not_eof c h = ground (arith, h)

pub not_negative : (c : ℕ) → c < 128 → is_negative c ≡ false
not_negative c h = ground (arith, h)

digit-bound : (c : ℕ) → is_digit c ≡ true → c < 128
digit-bound c h = ground (arith, h)

collect-digits :
    (room : ℕ) (ds : List ℕ) (c : ℕ) (rest : List ℕ)
    → length ds < room
    → All (λ d. is_digit d ≡ true) ds
    → IsEnding c
    → collect room (ds ++ (c ∷ rest)) ≡ some (ds, c ∷ rest)
unfolding collect
collect-digits zero ds c rest h digits ends = elim h [ ]
collect-digits (suc room) [] c rest h digits ends =
    rw (ends.0, not_eof c ends.1, not_negative c ends.1)
collect-digits (suc room) (d ∷ ds) c rest h digits ends =
    rw (digits.0, collect-digits room ds c rest (omega arith) digits.1 ends)

pub digit-not-blank : (d : ℕ) → is_digit d ≡ true → is_blank d ≡ false
digit-not-blank d h = ground arith

-- `getop` reads a number up to the character that ends it.
pub getop-number :
    (ds : List ℕ) (c : ℕ) (rest : List ℕ)
    → IsNumeral ds
    → IsEnding c
    → getop (ds ++ (c ∷ rest)) ≡ some (number ds, c ∷ rest)
unfolding getop
getop-number [] c rest plain ends = absurd (omega arith)
getop-number (d ∷ ds) c rest plain ends = rw (
  digit-not-blank d plain.2.0,
  not_eof d (digit-bound d plain.2.0),
  not_negative d (digit-bound d plain.2.0),
  plain.2.0,
  collect-digits 7 ds c rest (omega arith) plain.2.1 ends,
)

regroup : (a b c : ℕ) → a + b + 1 + c ≡ a + (b + suc c)
regroup a b c = omega arith

two_more : (n : ℕ) → n + 2 ≡ suc (suc n)
two_more n = omega arith

one_more : (n : ℕ) → 1 + n ≡ suc n
one_more n = omega arith

module _ (api : StackApi) where
  open api use {State, Holds, cap}

  -- The machine holds `v` on top of `xs`, and has written nothing more than `m`.
  abbrev Pushed : Machine api → ℤ → List ℤ → Machine api → Type 0
  Pushed m v xs n = Holds n.stack (v ∷ xs) × (n.out ≡ m.out)

  binary-apply :
      (f : ℤ → ℤ → Option ℤ) (m : Machine api) (a b v : ℤ) (xs : List ℤ)
      → Holds m.stack (b ∷ a ∷ xs)
      → length xs < cap
      → f a b ≡ some v
      → (n : Machine api) × (binary api f m ≡ some n) × Pushed m v xs n
  unfolding binary
  binary-apply f m a b v xs held room e =
      let (t, e1, held1) = pop_cons api m.stack b (a ∷ xs) m.op2 held in
      let (u, e2, held2) = pop_cons api t a xs m.op1 held1 in
      let (w, e3, held3) = push_room api u xs v held2 room in
      (record m { stack = w; op1 = a; op2 = b }, rw (e1, e2, e, e3), (held3, refl))

  operate-apply :
      (op : Op) (m : Machine api) (a b v : ℤ) (xs : List ℤ)
      → Holds m.stack (b ∷ a ∷ xs)
      → length xs < cap
      → apply op a b ≡ some v
      → (n : Machine api) × (operate api (sign op) m ≡ some n) × Pushed m v xs n
  unfolding operate apply
  operate-apply add m a b v xs held room e = binary-apply _ m a b v xs held room e
  operate-apply sub m a b v xs held room e = binary-apply _ m a b v xs held room e
  operate-apply mul m a b v xs held room e = binary-apply _ m a b v xs held room e
  operate-apply div m a b v xs held room e = binary-apply _ m a b v xs held room e

  loop-blank :
      (fuel : ℕ) (cs : List ℕ) (m : Machine api) → loop api fuel (32 ∷ cs) m ≡ loop api fuel cs m
  unfolding loop getop
  loop-blank zero cs m = refl
  loop-blank (suc fuel) cs m = refl

  loop-sign :
      (op : Op) (fuel : ℕ) (cs : List ℕ) (m : Machine api)
      → loop api (suc fuel) (sign op ∷ cs) m ≡ (operate api (sign op) m >>= λ n. loop api fuel cs n)
  unfolding loop getop
  loop-sign add fuel cs m = refl
  loop-sign sub fuel cs m = refl
  loop-sign mul fuel cs m = refl
  loop-sign div fuel cs m = refl

  push_number :
      (ds : List ℕ) (s : State) (xs : List ℤ) (v : ℤ)
      → atoi ds ≡ v
      → Holds s xs
      → length xs < cap
      → (t : State) × (api.push s (atoi ds) ≡ some (success, t)) × Holds t (v ∷ xs)
  push_number ds s xs v e held room = rw e (push_room api s xs v held room)

  loop-eval :
      (e : Expr) (fuel : ℕ) (m : Machine api) (v : ℤ) (xs : List ℤ) (c : ℕ) (rest : List ℕ)
      → IsPlain e
      → eval e ≡ some v
      → Holds m.stack xs
      → length xs + need e ≤ cap
      → IsEnding c
      → (n : Machine api) × (loop api (tokens e + fuel) (text e (c ∷ rest)) m
          ≡ loop api fuel (c ∷ rest) n)
        × Pushed m v xs n
  unfolding eval text need tokens loop
  loop-eval (num ds) fuel m v xs c rest plain e held room ends =
      let (t, pushed, held') = push_number ds m.stack xs v (cc) held (omega arith) in
      (
        record m { stack = t },
        rw (one_more fuel, getop-number ds c rest plain ends, pushed),
        (held', refl),
      )
  loop-eval (bin op l r) fuel m v xs c rest plain e held room ends =
      let (a, el, e') = >>=-eq-some (eval l) _ e in
      let (b, er, ea) = >>=-eq-some (eval r) _ e' in
      let (n1, run1, p1) =
        loop-eval l (tokens r + suc fuel) m a xs 32 (text r (32 ∷ sign op ∷ c ∷ rest)) plain.0 el
          held (omega arith) (refl, omega arith) in
      let (n2, run2, p2) =
        loop-eval r (suc fuel) n1 b (a ∷ xs) 32 (sign op ∷ c ∷ rest) plain.1 er p1.0 (omega arith)
          (refl, omega arith) in
      let (n3, run3, p3) = operate-apply op n2 a b v xs p2.0 (omega arith) ea in
      (
        n3,
        ap (λ k. loop api k (text l (32 ∷ text r (32 ∷ sign op ∷ c ∷ rest))) m)
              (regroup (tokens l) (tokens r) fuel)
            ∙ run1
            ∙ loop-blank (tokens r + suc fuel) _ n1
            ∙ run2
            ∙ loop-blank (suc fuel) _ n2
            ∙ loop-sign op fuel (c ∷ rest) n2
            ∙ rw run3,
        (p3.0, p3.1 ∙ p2.1 ∙ p1.1),
      )

  newline :
      (fuel : ℕ) (m : Machine api) (v : ℤ)
      → Holds m.stack (v ∷ [])
      → (n : Machine api) × (loop api (fuel + 2) (10 ∷ []) m ≡ some n)
        × Holds n.stack []
        × (n.out ≡ m.out ++ (value v ∷ []))
  unfolding loop getop operate
  newline fuel m v held =
      let (t, popped, held') = pop_cons api m.stack v [] m.op1 held in
      (
        record m { stack = t; op1 = v; out = m.out ++ (value v ∷ []) },
        rw (two_more fuel, popped),
        held',
        refl,
      )

  -- Given the postfix notation of an expression and the end of the line, the calculator prints the
  -- value of the expression and nothing else, and ends with an empty stack. The numbers have at
  -- most seven digits, the evaluation neither overflows nor divides by zero, and the stack has the
  -- room that it needs.
  pub loop-prints :
      (e : Expr) (fuel : ℕ) (m : Machine api) (v : ℤ)
      → IsPlain e
      → eval e ≡ some v
      → Holds m.stack []
      → need e ≤ cap
      → (n : Machine api) × (loop api (tokens e + (fuel + 2)) (text e (10 ∷ [])) m ≡ some n)
        × Holds n.stack []
        × (n.out ≡ m.out ++ (value v ∷ []))
  loop-prints e fuel m v plain ev held room =
      let (n, run, p) =
        loop-eval e (fuel + 2) m v [] 10 [] plain ev held (omega arith) (refl, omega arith) in
      let (k, last, held2, out2) = newline fuel n v p.0 in
      (k, run ∙ last, held2, out2 ∙ ap (λ o. o ++ (value v ∷ [])) p.1)
