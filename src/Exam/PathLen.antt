-- ===== src/Exam/PathLen.antt =====
-- exam/huawei/getPathLen.c: the longest line of ones that starts at a cell of a matrix and goes down,
-- to the right, or down along a diagonal.
pub mod Longest
use code_snippet.Prelude.{
  ℕ, zero, suc, ◌+◌, ◌-◌, ◌*◌, ◌≡◌, ◌≢◌, ◌≤◌, ◌<◌, ◌⊎◌, inl, inr, refl, sym, ◌∙◌, Option, none,
  some, List, ℤ, pos, ◌==ℤ◌, ==ℤ_iff, Bool-cases, at_or_above, side, true, false, ltb,
  if◌then◌else◌, ◌>>=◌, length, arith,
}
use code_snippet.Prelude.Arrays.{get_elem?, get_elem?-get_or}

pub data Direction : Type 0 where
  downward rightward falling rising : Direction

abbrev pub row : Direction → (start_x : ℕ) → ℕ → ℕ
row rightward x k = x
row downward x k = x + k
row falling x k = x + k
row rising x k = x + k

abbrev pub column : Direction → (start_y : ℕ) → ℕ → ℕ
column downward y k = y
column rightward y k = y + k
column falling y k = y + k
column rising y k = y - k

abbrev pub smaller : ℕ → ℕ → ℕ
smaller a b = if ltb a b then a else b

-- How many rounds the bounds leave to the loop.
abbrev pub room : Direction → (rows columns x y : ℕ) → ℕ
room downward rows columns x y = rows - x
room rightward rows columns x y = columns - y
room falling rows columns x y = smaller (rows - x) (columns - y)
room rising rows columns x y = smaller (rows - x) (y + 1)

-- The length that a loop finds from its round `k` on.
unfoldable pub run : List ℤ → (columns x y : ℕ) → Direction → (rounds k : ℕ) → Option ℕ
run arr columns x y d zero k = some 0
run arr columns x y d (suc rounds) k =
    let rest = run arr columns x y d rounds (k + 1) in
    get_elem? arr (row d x k * columns + column d y k) >>= λ cell.
    if cell ==ℤ pos 1 then (do len ← rest; some (len + 1)) else some 0

-- `if (len > max) max = len`
unfoldable pub raise : (max len : ℕ) → ℕ
raise max len = if ltb max len then len else max

unfoldable pub get_len : List ℤ → (rows columns x y : ℕ) → Option ℕ
unfolding run raise
get_len arr rows columns x y = do
  down ← run arr columns x y downward (room downward rows columns x y) 0
  right ← run arr columns x y rightward (room rightward rows columns x y) 0
  fall ← run arr columns x y falling (room falling rows columns x y) 0
  rise ← run arr columns x y rising (room rising rows columns x y) 0
  some (raise (raise (raise (raise 0 down) right) fall) rise)
