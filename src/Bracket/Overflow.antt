-- ===== src/Bracket/Overflow.antt =====
-- What the bracket counters return for a text that is nested deeper than their stack.
use code_snippet.Prelude.{
  ℕ, zero, suc, ◌+◌, ◌≡◌, refl, ap, ◌∙◌, none, some, List, [], ◌∷◌, ◌++◌, pos, arith, replicate,
  length-replicate,
}
use native.Mathlib.Nat.{zero-add, add-zero}
use code_snippet.Stack.Api.{StackApi}
use code_snippet.Stack.Steps.{push_full, pop_cons}
use code_snippet.Bracket.{open_bracket, close_bracket, scan, calculate_from, calculate}
use code_snippet.Bracket.Nesting.{pairs, opened, Returns, open_step, settle-Returns}

abbrev pub opens : ℕ → List ℕ → List ℕ
opens n rest = replicate n open_bracket ++ rest

module _ (api : StackApi) where
  open api use {State, Holds, Freed, cap}

  opens_fill :
      (n depth count : ℕ) (s : State) (rest : List ℕ)
      → Holds s (opened depth)
      → depth + n ≡ cap
      → (t : State) × (calculate_from api (opens n rest) count s ≡ calculate_from api rest count t)
        × Holds t (opened cap)
  unfolding calculate_from scan
  opens_fill zero depth count s rest held e =
      let e' : depth ≡ cap = omega arith in (s, refl, rw e' at held)
  opens_fill (suc n) depth count s rest held e =
      let (t, pushed, held') = open_step api open_bracket depth s refl held (omega arith) in
      let (u, same, held'') = opens_fill n (suc depth) count t rest held' (omega arith) in
      (u, rw pushed same, held'')

  opens_ignored :
      (n count : ℕ) (s : State) (rest : List ℕ)
      → Holds s (opened cap)
      → (t : State) × (calculate_from api (opens n rest) count s ≡ calculate_from api rest count t)
        × Holds t (opened cap)
  unfolding calculate_from scan
  opens_ignored zero count s rest held = (s, refl, held)
  opens_ignored (suc n) count s rest held =
      let (t, pushed, held') =
        push_full api s (opened cap) (pos open_bracket) held
          (length-replicate cap (pos open_bracket)) in
      let (u, same, held'') = opens_ignored n count t rest held' in (u, rw pushed same, held'')

  closes :
      (n count : ℕ) (s : State)
      → Holds s (opened n)
      → Returns api (calculate_from api (replicate n close_bracket) count s) (pos (n + count))
  unfolding calculate_from scan pairs
  closes zero count s held = rw zero-add (settle-Returns api zero count s held)
  closes (suc n) count s held =
      let (t, popped, held') = pop_cons api s (pos open_bracket) (opened n) (pos 0) held in
      let same : suc n + count ≡ n + (count + 1) = omega arith in
      rw (popped, same) (closes n (count + 1) t held')

pairs-opens :
    (n depth count : ℕ) (rest : List ℕ)
    → pairs depth count (opens n rest) ≡ pairs (n + depth) count rest
unfolding pairs
pairs-opens zero depth count rest = ap (λ d. pairs d count rest) (omega arith)
pairs-opens (suc n) depth count rest =
    pairs-opens n (suc depth) count rest ∙ ap (λ d. pairs d count rest) (omega arith)

pairs-closes : (n depth count : ℕ) → pairs (n + suc depth) count (replicate n close_bracket) ≡ none
unfolding pairs
pairs-closes zero depth count = ap (λ d. pairs d count []) (zero-add (suc depth))
pairs-closes (suc n) depth count =
    let e : suc n + suc depth ≡ suc (n + suc depth) = omega arith in
    rw e (pairs-closes n depth (count + 1))

opens-add : (a b : ℕ) (rest : List ℕ) → opens (a + b) rest ≡ opens a (opens b rest)
opens-add zero b rest = ap (λ n. opens n rest) (zero-add b)
opens-add (suc a) b rest =
    let e : suc a + b ≡ suc (a + b) = omega arith in
    rw e (ap (λ l. open_bracket ∷ l) (opens-add a b rest))

module _ (api : StackApi) where
  open api use {State, Holds, Freed, cap}

  -- With `k + 1` opening brackets more than the stack has room for, and as many closing ones as it
  -- has room for, the text is not matched, but the result is `cap` and not -1: the status of
  -- the push is not read.
  pub calculate-overflow :
      (k : ℕ) (s : State)
      → Holds s []
      → let text = opens (cap + suc k) (replicate cap close_bracket) in
        (pairs 0 0 text ≡ none) × Returns api (calculate api text s) (pos cap)
  unfolding calculate
  calculate-overflow k s held = (
    pairs-opens (cap + suc k) 0 0 rest
        ∙ ap (λ d. pairs d 0 rest) (add-zero (cap + suc k))
        ∙ pairs-closes cap k 0,
    accepted,
  )
    where
      rest : List ℕ
      rest = replicate cap close_bracket

      accepted : Returns api (calculate_from api (opens (cap + suc k) rest) 0 s) (pos cap)
      accepted =
          let (t, filled, full) =
            opens_fill api cap 0 0 s (opens (suc k) rest) held (omega arith) in
          let (u, ignored, still) = opens_ignored api (suc k) 0 t rest full in
          let (v, e, freed) = closes api cap 0 u still in
          let total : cap + 0 ≡ cap = omega arith in
          (
            v,
            ap (λ l. calculate_from api l 0 s) (opens-add cap (suc k) rest)
                ∙ filled
                ∙ ignored
                ∙ e
                ∙ ap (λ n. some (pos n, v)) total,
            freed,
          )
