-- ===== src/SmcHelper/Tests.antt =====
-- Three commands written, with a firmware that adds words, and two results read at once.
use code_snippet.Prelude.{ℕ, ◌+◌, ◌≡◌, refl, false, some, List, [], ◌∷◌, pos, arith}
use code_snippet.SmcHelper.{Command, Result, Device, read_device}
use code_snippet.SmcHelper.Queue.{write_all, read_all, read-last, write-read}

abbrev total : Command → ℕ
total [] = 0
total (w ∷ ws) = w + total ws

abbrev smc : Command → Result
smc command = record { a0 = total command; a1 = 0; a2 = 0; a3 = 0 }

abbrev answer : ℕ → Result
answer n = record { a0 = n; a1 = 0; a2 = 0; a3 = 0 }

abbrev commands : List Command
commands = (1 ∷ 2 ∷ []) ∷ (3 ∷ []) ∷ []

read-last_example :
    read_device (λ k. false) 70 (record { queue = answer 3 ∷ answer 4 ∷ answer 5 ∷ []; lost = 0 })
    ≡ (pos 64, some (answer 4), record { queue = answer 5 ∷ []; lost = 2 })
read-last_example =
    read-last (answer 3 ∷ answer 4 ∷ []) (answer 5 ∷ []) (λ k. false) 70 0 (λ k. refl) (omega arith)
      (omega arith)

write-read_example :
    (d : Device) × (write_all smc commands (record { queue = []; lost = 0 }) ≡ some d)
    × (read_all 2 40 d ≡ (some (answer 3) ∷ some (answer 3) ∷ [], record { queue = []; lost = 2 }))
write-read_example = write-read smc commands 8 0 (omega arith)
