-- ===== src/Postfix/Fuel.antt =====
-- The calculator's loop ends: every round but the last takes a character.
use code_snippet.Prelude.{
  none, ℕ, zero, suc, ◌≤◌, ◌<◌, ◌≡◌, refl, ◌⊎◌, inl, inr, Option, some, List, [], ◌∷◌, ◌>>=◌,
  length, arith, sym, ap, fun_ext, ◌∙◌, Option-cases,
}
use mathlib.Core.Path.{subst}
use code_snippet.Stack.Api.{StackApi}
use code_snippet.Postfix.{
  Token, end, number, operator, skip, collect, next_token, getop, atoi, Machine, operate, loop,
}

length-skip : (cs : List ℕ) → length (skip cs) ≤ length cs
unfolding skip
length-skip [] = omega arith
length-skip (c ∷ cs) = ground (arith, length-skip cs)

length-collect :
    (room : ℕ) (cs ds rest : List ℕ) → collect room cs ≡ some (ds, rest) → length rest ≤ length cs
unfolding collect
length-collect zero cs ds rest e = absurd (cc)
length-collect (suc room) [] ds rest e = ground arith
length-collect (suc room) (c ∷ cs) ds rest e = elim (Option-cases (collect room cs)) [
  | inl stopped ↦ ground arith
  | inr ((es, last), got) ↦ ground (arith, length-collect room cs es last got)
]

length-next_token :
    (cs : List ℕ) (token : Token) (rest : List ℕ)
    → next_token cs ≡ some (token, rest)
    → (token ≡ end) ⊎ (length rest < length cs)
unfolding next_token
length-next_token [] token rest e = inl (ground arith)
length-next_token (c ∷ cs) token rest e = elim (Option-cases (collect 7 cs)) [
  | inl stopped ↦ inr (ground arith)
  | inr ((es, last), got) ↦ inr (ground (arith, length-collect 7 cs es last got))
]

length-getop :
    (cs : List ℕ) (token : Token) (rest : List ℕ)
    → getop cs ≡ some (token, rest)
    → (token ≡ end) ⊎ (length rest < length cs)
unfolding getop
length-getop cs token rest e = elim (length-next_token (skip cs) token rest e) [
  | inl done ↦ inl done
  | inr less ↦ inr (omega (arith, length-skip cs))
]

module _ (api : StackApi) where
  open api use {push}

  -- What a round does with its token, for a given rest of the loop.
  abbrev round : Token → Machine api → (Machine api → Option (Machine api)) → Option (Machine api)
  round end m again = some m
  round (number ds) m again = do (_, t) ← push m.stack (atoi ds); again (record m { stack = t })
  round (operator c) m again = do n ← operate api c m; again n

  round-end :
      (token : Token) (m : Machine api) (j k : Machine api → Option (Machine api))
      → token ≡ end
      → round token m j ≡ round token m k
  round-end end m j k e = refl
  round-end (number ds) m j k e = absurd (cc)
  round-end (operator c) m j k e = absurd (cc)

  loop-round :
      (fuel : ℕ) (cs : List ℕ) (m : Machine api) (token : Token) (rest : List ℕ)
      → getop cs ≡ some (token, rest)
      → loop api (suc fuel) cs m ≡ round token m (loop api fuel rest)
  unfolding loop
  loop-round fuel cs m end rest e = rw e
  loop-round fuel cs m (number ds) rest e = rw e
  loop-round fuel cs m (operator c) rest e = rw e

  -- Fuel above the length of the input is enough: more of it changes nothing.
  pub loop-fuel :
      (f g : ℕ) (cs : List ℕ) (m : Machine api)
      → length cs < f
      → length cs < g
      → loop api f cs m ≡ loop api g cs m
  unfolding loop
  loop-fuel zero g cs m hf hg = elim hf [ ]
  loop-fuel (suc f) zero cs m hf hg = elim hg [ ]
  loop-fuel (suc f) (suc g) cs m hf hg = elim (Option-cases (getop cs)) [
    | inl stuck ↦ rw stuck
    | inr ((token, rest), e) ↦ elim (length-getop cs token rest e) [
      | inl done ↦
          loop-round f cs m token rest e
          ∙ round-end token m _ _ done
          ∙ sym (loop-round g cs m token rest e)
      | inr less ↦
          let same : loop api f rest ≡ loop api g rest =
            fun_ext (λ n. loop-fuel f g rest n (omega arith) (omega arith)) in
          loop-round f cs m token rest e
          ∙ ap (round token m) same
          ∙ sym (loop-round g cs m token rest e)
    ]
  ]

  -- A round of `main`: undefined, or the last one, or what it leaves.
  abbrev step : List ℕ → Machine api → Option (Option (List ℕ × Machine api))
  step cs m = do
    (token, rest) ← getop cs
    elim token [
      | end ↦ some none
      | number ds ↦ do (_, t) ← push m.stack (atoi ds); some (some (rest, record m { stack = t }))
      | operator c ↦ do m' ← operate api c m; some (some (rest, m'))
    ]

  -- A finite run, without fuel: its result is `none` only where a round is undefined.
  pub data Run : List ℕ → Machine api → Option (Machine api) → Type 0 where
    undefined : (cs : List ℕ) → (m : Machine api) → step cs m ≡ none → Run cs m none
    ended : (cs : List ℕ) → (m : Machine api) → step cs m ≡ some none → Run cs m (some m)
    went :
        (cs rest : List ℕ)
        → (m n : Machine api) → (out : Option (Machine api)) → step cs m ≡ some (some (rest, n))
        → Run rest n out
        → Run cs m out

  later :
      (fuel : ℕ) (cs rest : List ℕ) (m n : Machine api)
      → step cs m ≡ some (some (rest, n))
      → loop api (suc fuel) cs m ≡ loop api fuel rest n
      → Run rest n (loop api fuel rest n)
      → Run cs m (loop api (suc fuel) cs m)
  later fuel cs rest m n s e r = subst (Run cs m) (sym e) (went cs rest m n _ s r)

  undefined_round :
      (fuel : ℕ) (cs : List ℕ) (m : Machine api)
      → step cs m ≡ none
      → loop api (suc fuel) cs m ≡ none
      → Run cs m (loop api (suc fuel) cs m)
  undefined_round fuel cs m s e = subst (Run cs m) (sym e) (undefined cs m s)

  stuck_turn :
      (fuel : ℕ) (cs : List ℕ) (m : Machine api)
      → getop cs ≡ none
      → Run cs m (loop api (suc fuel) cs m)
  unfolding loop
  stuck_turn fuel cs m e = undefined_round fuel cs m (rw e refl) (rw e refl)

  loop_turn :
      (fuel : ℕ) (cs rest : List ℕ) (m : Machine api) (token : Token)
      → getop cs ≡ some (token, rest)
      → ((token ≡ end) ⊎ ((n : Machine api) → Run rest n (loop api fuel rest n)))
      → Run cs m (loop api (suc fuel) cs m)
  unfolding loop
  loop_turn fuel cs rest m end e h =
      subst (Run cs m) (sym (loop-round fuel cs m end rest e)) (ended cs m (rw e refl))
  loop_turn fuel cs rest m (number ds) e (inl done) = absurd (cc)
  loop_turn fuel cs rest m (number ds) e (inr h) = elim (Option-cases (push m.stack (atoi ds))) [
    | inl full ↦ undefined_round fuel cs m (rw (e, full) refl) (rw (e, full) refl)
    | inr ((status, t), pushed) ↦
        later fuel cs rest m (record m { stack = t }) (rw (e, pushed) refl) (rw (e, pushed) refl)
          (h (record m { stack = t }))
  ]
  loop_turn fuel cs rest m (operator c) e (inl done) = absurd (cc)
  loop_turn fuel cs rest m (operator c) e (inr h) = elim (Option-cases (operate api c m)) [
    | inl bad ↦ undefined_round fuel cs m (rw (e, bad) refl) (rw (e, bad) refl)
    | inr (n, works) ↦ later fuel cs rest m n (rw (e, works) refl) (rw (e, works) refl) (h n)
  ]

  -- On every input and every state the loop ends: with more fuel than the input is long, its result
  -- is that of a finite run of rounds, so that `none` means that a round on the way is undefined,
  -- and never that the fuel ran out.
  pub loop-Run :
      (fuel : ℕ) (cs : List ℕ) (m : Machine api) → length cs < fuel → Run cs m (loop api fuel cs m)
  loop-Run zero cs m h = elim h [ ]
  loop-Run (suc fuel) cs m h = elim (Option-cases (getop cs)) [
    | inl stuck ↦ stuck_turn fuel cs m stuck
    | inr ((token, rest), e) ↦
        loop_turn fuel cs rest m token e (elim (length-getop cs token rest e) [
          | inl done ↦ inl done
          | inr less ↦ inr (λ n. loop-Run fuel rest n (omega (arith, less, h)))
        ])
  ]
