-- ===== src/Stack/Lifo.antt =====
-- What a stack promises: a list of at most `cap` integers, the top first. A call returns the
-- C status, and `pop` the value of `*data` after the call.
use code_snippet.Prelude.{
  ℕ, Bool, true, false, List, [], ◌∷◌, ℤ, pos, negsuc, length, ◌==◌, if◌then◌else◌,
}

abbrev pub success : ℤ
success = pos 0

abbrev pub failure : ℤ
failure = negsuc 0

abbrev pub push : ℕ → List ℤ → ℤ → ℤ × List ℤ
push cap xs v = if length xs == cap then (failure, xs) else (success, v ∷ xs)

abbrev pub pop : List ℤ → ℤ → ℤ × ℤ × List ℤ
pop [] old = (failure, old, [])
pop (x ∷ xs) old = (success, x, xs)

abbrev pub is_empty : List ℤ → Bool
is_empty [] = true
is_empty (x ∷ xs) = false
