-- ===== src/ExprTree/Tests.antt =====
-- "12 3 4*-" and "7 5%" on two lines.
use code_snippet.Prelude.{
  ℕ, ◌+◌, ◌-◌, ◌*◌, ◌<◌, ◌≤◌, ◌≢◌, ◌≡◌, refl, Bool, true, some, List, [], ◌∷◌, pos, ◌-ℤ◌, ◌*ℤ◌,
  arith,
}
use code_snippet.Prelude.Division.{int_div, int_mod, quotient}
use code_snippet.Postfix.{is_digit, atoi}
use code_snippet.ExprTree.{num, sign, bracket_open, bracket_close, result, printf_data, main}
use code_snippet.ExprTree.Meaning.{Op, add, sub, mul, div, rem, code, Expr, lit, bin, eval, IsPlain}
use code_snippet.ExprTree.Report.{lines, reports, main-lines}

abbrev first : Expr
first = bin sub (lit (b'1' ∷ b'2' ∷ [])) (bin mul (lit (b'3' ∷ [])) (lit (b'4' ∷ [])))

abbrev second : Expr
second = bin rem (lit (b'7' ∷ [])) (lit (b'5' ∷ []))

eval-first : eval first ≡ some (pos 0)
unfolding atoi ◌*ℤ◌ ◌-ℤ◌
eval-first = refl

eval-second : eval second ≡ some (pos 2)
unfolding atoi int_mod int_div quotient ◌*ℤ◌ ◌-ℤ◌
eval-second = refl

abbrev plenty : List ℕ → Bool
plenty cs = true

reports-second :
    reports ((second, pos 2) ∷ [])
    ≡ num (pos 7)
      ∷ num (pos 5)
      ∷ sign (pos b'%')
      ∷ bracket_open
      ∷ num (pos 7)
      ∷ bracket_close
      ∷ sign (pos b'%')
      ∷ bracket_open
      ∷ num (pos 5)
      ∷ bracket_close
      ∷ result (pos 2)
      ∷ []
unfolding atoi printf_data
reports-second = refl

below_codes : (n : ℕ) → n < 37 → (op : Op) → pos n ≢ pos (code op)
below_codes n h add e = ground (arith, h, e)
below_codes n h sub e = ground (arith, h, e)
below_codes n h mul e = ground (arith, h, e)
below_codes n h div e = ground (arith, h, e)
below_codes n h rem e = ground (arith, h, e)

digit-IsPlain : (d : ℕ) → b'0' ≤ d → d ≤ b'9' → is_digit d ≡ true → IsPlain (lit (d ∷ []))
unfolding atoi
digit-IsPlain d low high is = (
  (omega arith, omega arith, (is, tt)),
  below_codes (0 * 10 + (d - b'0')) (omega (arith, low, high)),
)

twelve-IsPlain : IsPlain (lit (b'1' ∷ b'2' ∷ []))
unfolding atoi
twelve-IsPlain = ((omega arith, omega arith, (refl, (refl, tt))), below_codes 12 (omega arith))

main-lines_example :
    main plenty 12 (lines (first ∷ second ∷ []))
    ≡ some (reports ((first, pos 0) ∷ (second, pos 2) ∷ []))
main-lines_example =
    main-lines plenty ((first, pos 0) ∷ (second, pos 2) ∷ []) 1 (λ cs. refl)
      (
        (
          (
            twelve-IsPlain,
            (
              digit-IsPlain b'3' (omega arith) (omega arith) refl,
              digit-IsPlain b'4' (omega arith) (omega arith) refl,
            ),
          ),
          omega arith,
          eval-first,
        ),
        (
          (
            (
              digit-IsPlain b'7' (omega arith) (omega arith) refl,
              digit-IsPlain b'5' (omega arith) (omega arith) refl,
            ),
            omega arith,
            eval-second,
          ),
          tt,
        ),
      )
      (omega arith)
