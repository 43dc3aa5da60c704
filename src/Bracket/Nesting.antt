-- ===== src/Bracket/Nesting.antt =====
-- What the bracket counters compute.
use code_snippet.Prelude.{
  ℕ, zero, suc, ◌+◌, ◌≤◌, ◌<◌, ◌≡◌, Bool, true, false, Option, none, some, List, [], ◌∷◌, ℤ, pos,
  ◌==◌, ◌==ℤ◌, ◌>>=◌, arith, if◌then◌else◌, replicate, length-replicate, Bool-cases, inl, inr,
}
use code_snippet.Stack.Api.{StackApi}
use code_snippet.Stack.Lifo.{success, failure}
use code_snippet.Bracket.{
  open_bracket, close_bracket, scan, finish, settle, calculate_from, calculate,
}
use code_snippet.Stack.Steps.{push_room, pop_cons, pop_nil}

-- The specification: walk over the text at a depth, count the closed pairs. There is no result if
-- a bracket closes that none opened, or if one is left open.
unfoldable pub pairs : ℕ → ℕ → List ℕ → Option ℕ
pairs zero count [] = some count
pairs (suc depth) count [] = none
pairs depth count (p ∷ ps) =
    if p == open_bracket
    then pairs (suc depth) count ps
    else if p == close_bracket
    then elim depth [ zero ↦ none | suc outer ↦ pairs outer (count + 1) ps ]
    else pairs depth count ps

-- The nesting never goes beyond `limit`, from `depth` on.
abbrev pub fits : ℕ → ℕ → List ℕ → Bool
fits limit depth [] = true
fits limit depth (p ∷ ps) =
    if p == open_bracket
    then (if depth == limit then false else fits limit (suc depth) ps)
    else if p == close_bracket
    then elim depth [ zero ↦ true | suc outer ↦ fits limit outer ps ]
    else fits limit depth ps

-- The result of `caculate` for that of the specification.
abbrev pub status : Option ℕ → ℤ
status none = failure
status (some n) = pos n

abbrev pub opened : ℕ → List ℤ
opened depth = replicate depth (pos open_bracket)

module _ (api : StackApi) where
  open api use {State, Holds, Freed, cap, is_empty_law, destroy_law}

  -- The run ends with this status, and the stack is freed.
  abbrev pub Returns : Option (ℤ × State) → ℤ → Type 0
  Returns run result = (t : State) × (run ≡ some (result, t)) × Freed t

  finish-Returns :
      (result : ℤ) (s : State) (xs : List ℤ) → Holds s xs → Returns (finish api result s) result
  unfolding finish
  finish-Returns result s xs held = let (t, e, freed) = destroy_law s xs held in (t, rw e, freed)

  pub settle-Returns :
      (depth count : ℕ) (s : State)
      → Holds s (opened depth)
      → Returns (settle api (some count) s) (status (pairs depth count []))
  unfolding settle pairs
  settle-Returns zero count s held =
      rw (is_empty_law s [] held) (finish-Returns (pos count) s [] held)
  settle-Returns (suc depth) count s held =
      rw (is_empty_law s (opened (suc depth)) held)
        (finish-Returns failure s (opened (suc depth)) held)

  pub open_step :
      (p depth : ℕ) (s : State)
      → p ≡ open_bracket
      → Holds s (opened depth)
      → depth < cap
      → (t : State) × (api.push s (pos p) ≡ some (success, t)) × Holds t (opened (suc depth))
  open_step p depth s e held room = rw e (
      push_room api s (opened depth) (pos open_bracket) held
        (omega (arith, length-replicate {0} depth (pos open_bracket))))

  scan-pairs :
      (ps : List ℕ) (depth count : ℕ) (s : State)
      → Holds s (opened depth)
      → depth ≤ cap
      → fits cap depth ps ≡ true
      → Returns (calculate_from api ps count s) (status (pairs depth count ps))
  unfolding scan calculate_from settle pairs
  scan-pairs [] zero count s held le fit = settle-Returns zero count s held
  scan-pairs [] (suc depth) count s held le fit = settle-Returns (suc depth) count s held
  scan-pairs (p ∷ ps) depth count s held le fit = elim (Bool-cases (p == open_bracket)) [
    | inl is_open ↦
        let (t, pushed, held') = open_step p depth s (ground arith) held (ground arith) in
        rw (is_open, pushed) (scan-pairs ps (suc depth) count t held' (ground arith) (ground arith))
    | inr not_open ↦ rw not_open (elim (Bool-cases (p == close_bracket)) [
      | inl is_close ↦ rw is_close (
          close_step depth held le (rw (not_open, is_close) at fit)
            (λ t d h. scan-pairs ps d (count + 1) t h))
      | inr neither ↦
          rw neither (scan-pairs ps depth count s held le (rw (not_open, neither) at fit))
    ])
  ]
    where
      close_step :
          (d : ℕ)
          → Holds s (opened d)
          → d ≤ cap
          → (elim d [ zero ↦ true | suc outer ↦ fits cap outer ps ]) ≡ true
          → ((t : State) (outer : ℕ)
              → Holds t (opened outer)
              → outer ≤ cap
              → fits cap outer ps ≡ true
              → Returns (calculate_from api ps (count + 1) t) (status (pairs outer (count + 1) ps)))
          → Returns
              ((do
                (counted, t) ← (do
                  (_, q, t) ← api.pop s (pos 0)
                  if q ==ℤ pos open_bracket then scan api ps (count + 1) t else some (none, t))
                settle api counted t))
              (status (elim d [ zero ↦ none | suc outer ↦ pairs outer (count + 1) ps ]))
      close_step zero h le f rec =
          let (t, popped, h') = pop_nil api s (pos 0) h in
          rw popped (finish-Returns failure t [] h')
      close_step (suc d) h le f rec =
          let (t, popped, h') = pop_cons api s (pos open_bracket) (opened d) (pos 0) h in
          rw popped (rec t d h' (omega arith) f)

  -- On a text whose brackets are never nested deeper than the stack's capacity, `caculate` returns
  -- what the walk over the text gives: the number of pairs if every bracket is matched, and else
  -- -1. The stack is freed.
  pub calculate-pairs :
      (text : List ℕ) (s : State)
      → Holds s []
      → fits cap 0 text ≡ true
      → Returns (calculate api text s) (status (pairs 0 0 text))
  unfolding calculate
  calculate-pairs text s held fit = scan-pairs text 0 0 s held (omega arith) fit
