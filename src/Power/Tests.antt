-- ===== src/Power/Tests.antt =====
-- 2 to the power of 3 to the power of 2.
use code_snippet.Prelude.{◌≡◌, refl, some, [], ◌∷◌, pos, replicate, ◌*ℤ◌, arith}
use code_snippet.Stack.Seq.{Ptr}
use code_snippet.Stack.Seq.Refine.{Holds}
use code_snippet.Stack.Seq.Client
use code_snippet.Power.{caculate}
use code_snippet.Power.Exponents.{fits, pow}
use code_snippet.Power.Tower.{tower, caculate-tower}

abbrev fresh : Ptr
fresh = some (record { buf = replicate 16 (pos 0); top = 0; max = 16 })

fresh-Holds : Holds 16 fresh []
fresh-Holds = record { size = refl; storage = omega arith; bound = omega arith; contents = refl }

tower_runs : tower (pos 2 ∷ pos 3 ∷ []) (pos 2) ≡ some (pos 512)
unfolding fits pow ◌*ℤ◌
tower_runs = refl

caculate-tower_example :
    caculate (Client.api 16) fresh (pos 0) (pos 2 ∷ pos 3 ∷ pos 2 ∷ []) 3
    ≡ tower (pos 2 ∷ pos 3 ∷ []) (pos 2)
caculate-tower_example =
    caculate-tower (Client.api 16) (pos 2) (pos 3 ∷ []) (pos 2) [] fresh (pos 0) fresh-Holds
      (omega arith)
