-- ===== src/Postfix/Tests.antt =====
-- The calculator on "12 3 4*-" and its theorems there.
use code_snippet.Prelude.{◌+◌, ◌≡◌, refl, some, [], ◌∷◌, pos, replicate, ◌-ℤ◌, ◌*ℤ◌, arith}
use code_snippet.Stack.Seq.{Ptr, push, pop}
use code_snippet.Stack.Seq.Refine.{Holds}
use code_snippet.Stack.Seq.Client
use code_snippet.Postfix.{Machine, value, unknown, getop, atoi, operate, loop}
use code_snippet.Postfix.Meaning.{Expr, num, bin, sub, mul, eval, text, need, tokens}
use code_snippet.Postfix.Correct.{loop-prints}
use code_snippet.Postfix.Fuel.{Run, loop-Run}

abbrev sample : Expr
sample = bin sub (num (b'1' ∷ b'2' ∷ [])) (bin mul (num (b'3' ∷ [])) (num (b'4' ∷ [])))

abbrev fresh : Ptr
fresh = some (record { buf = replicate 16 (pos 0); top = 0; max = 16 })

fresh-Holds : Holds 16 fresh []
fresh-Holds = record { size = refl; storage = omega arith; bound = omega arith; contents = refl }

abbrev start : Machine (Client.api 16)
start = record { stack = fresh; op1 = pos 99; op2 = pos 99; out = [] }

text-sample :
    text sample (10 ∷ []) ≡ b'1' ∷ b'2' ∷ 32 ∷ b'3' ∷ 32 ∷ b'4' ∷ 32 ∷ b'*' ∷ 32 ∷ b'-' ∷ 10 ∷ []
unfolding text
text-sample = refl

eval-sample : eval sample ≡ some (pos 0)
unfolding eval atoi ◌*ℤ◌ ◌-ℤ◌
eval-sample = refl

need-sample : need sample ≡ 3
unfolding need
need-sample = refl

-- The line's end at an empty stack prints what `op1` held.
stale_runs :
    loop (Client.api 16) 3 (10 ∷ b'?' ∷ []) start
    ≡ some (record start { out = value (pos 99) ∷ unknown b'?' ∷ [] })
unfolding loop getop operate Client.pop_into pop push
stale_runs = refl

loop-prints_example :
    (n : Machine (Client.api 16)) × (loop
        (Client.api 16)
        (tokens sample + (0 + 2))
        (text sample (10 ∷ []))
        start
      ≡ some n)
    × Holds 16 n.stack []
    × (n.out ≡ value (pos 0) ∷ [])
loop-prints_example =
    loop-prints (Client.api 16) sample 0 start (pos 0)
      (
        (omega arith, omega arith, (refl, (refl, tt))),
        ((omega arith, omega arith, (refl, tt)), (omega arith, omega arith, (refl, tt))),
      )
      eval-sample fresh-Holds (rw need-sample (omega arith))

loop-Run_example : Run (Client.api 16) (10 ∷ []) start (loop (Client.api 16) 2 (10 ∷ []) start)
loop-Run_example = loop-Run (Client.api 16) 2 (10 ∷ []) start (omega arith)
