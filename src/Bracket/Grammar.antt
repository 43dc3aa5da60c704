-- ===== src/Bracket/Grammar.antt =====
-- Texts with matched brackets, by a grammar, and what the bracket counters return for them.
use code_snippet.Prelude.{
  ℕ, suc, ◌+◌, ◌≤◌, ◌≡◌, refl, ◌∙◌, sym, ap, false, true, some, List, [], ◌∷◌, ◌++◌, append-nil,
  append_assoc, pos, ◌==◌, arith,
}
use code_snippet.Stack.Api.{StackApi}
use code_snippet.Bracket.{open_bracket, close_bracket, calculate}
use code_snippet.Bracket.Nesting.{pairs, fits, Returns, calculate-pairs}

-- `Balanced k n w`: in `w` all brackets are matched, in `n` pairs, nested at most `k` deep.
pub data Balanced : ℕ → ℕ → List ℕ → Type 0 where
  empty : {k : ℕ} → Balanced k 0 []
  other :
      {k n : ℕ} {w : List ℕ} (c : ℕ)
      → (c == open_bracket) ≡ false
      → (c == close_bracket) ≡ false
      → Balanced k n w
      → Balanced k n (c ∷ w)
  nest :
      {k n m : ℕ} {w v : List ℕ}
      → Balanced k n w
      → Balanced (suc k) m v
      → Balanced (suc k) (suc (n + m)) (open_bracket ∷ (w ++ (close_bracket ∷ v)))

pairs-Balanced :
    {k n : ℕ} {w : List ℕ} (depth count : ℕ) (rest : List ℕ)
    → Balanced k n w
    → pairs depth count (w ++ rest) ≡ pairs depth (n + count) rest
unfolding pairs
pairs-Balanced depth count rest empty = ap (λ c. pairs depth c rest) (omega arith)
pairs-Balanced depth count rest (other c no_open no_close b) =
    rw (no_open, no_close) (pairs-Balanced depth count rest b)
pairs-Balanced depth count rest (nest {n} {m} {w} {v} inner after) = rw append_assoc (
    pairs-Balanced (suc depth) count (close_bracket ∷ (v ++ rest)) inner
    ∙ pairs-Balanced depth (n + count + 1) rest after
    ∙ ap (λ c. pairs depth c rest) (omega arith))

fits-Balanced :
    {k n : ℕ} {w : List ℕ} (limit depth : ℕ) (rest : List ℕ)
    → Balanced k n w
    → depth + k ≤ limit
    → fits limit depth (w ++ rest) ≡ fits limit depth rest
fits-Balanced limit depth rest empty room = refl
fits-Balanced limit depth rest (other c no_open no_close b) room =
    rw (no_open, no_close) (fits-Balanced limit depth rest b room)
fits-Balanced limit depth rest (nest {w} {v} inner after) room =
    let below : (depth == limit) ≡ false = ground arith in
    rw (below, append_assoc)
      (fits-Balanced limit (suc depth) (close_bracket ∷ (v ++ rest)) inner (omega arith)
        ∙ fits-Balanced limit depth rest after room)

module _ (api : StackApi) where
  open api use {State, Holds, cap}

  -- A text of the grammar that is nested at most as deep as the stack has room gives the number of
  -- its pairs.
  pub calculate-Balanced :
      (n : ℕ) (text : List ℕ) (s : State)
      → Holds s []
      → Balanced cap n text
      → Returns api (calculate api text s) (pos n)
  calculate-Balanced n text s held b =
      let counted : pairs 0 0 text ≡ some n =
        ap (pairs 0 0) (sym (append-nil text))
        ∙ pairs-Balanced 0 0 [] b
        ∙ unfold pairs in ap some (omega arith) in
      let fit : fits cap 0 text ≡ true =
        ap (fits cap 0) (sym (append-nil text)) ∙ fits-Balanced cap 0 [] b (omega arith) in
      rw counted at (calculate-pairs api text s held fit)
