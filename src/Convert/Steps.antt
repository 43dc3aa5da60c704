-- ===== src/Convert/Steps.antt =====
-- What the loops over the stack do to the list that the stack holds.
use code_snippet.Prelude.{
  ℕ, zero, suc, ◌+◌, ◌≡◌, ◌<◌, refl, ap, sym, ◌∙◌, append_assoc, append-nil, Bool, true, false,
  some, List, [], ◌∷◌, ◌++◌, ℤ, pos, if◌then◌else◌, length, arith, Bool-cases, inl, inr,
}
use mathlib.Core.Path.{subst}
use code_snippet.Stack.Api.{StackApi}
use code_snippet.Stack.Steps.{push_room, pop_cons, pop_nil}
use code_snippet.Convert.{Machine, pop_until, push_char, rank}

-- What is printed of the stack, what `ch` is after that, and what stays.
abbrev pub printed : (ℤ → Bool) → List ℤ → List ℤ
printed stop [] = []
printed stop (x ∷ xs) = if stop x then [] else x ∷ printed stop xs

abbrev pub last_popped : (ℤ → Bool) → ℤ → List ℤ → ℤ
last_popped stop ch [] = ch
last_popped stop ch (x ∷ xs) = if stop x then x else last_popped stop x xs

abbrev pub remaining : (ℤ → Bool) → List ℤ → List ℤ
remaining stop [] = []
remaining stop (x ∷ xs) = if stop x then xs else remaining stop xs

length-remaining : (stop : ℤ → Bool) (xs : List ℤ) → length (remaining stop xs) < suc (length xs)
length-remaining stop [] = omega arith
length-remaining stop (x ∷ xs) = ground (arith, length-remaining stop xs)

module _ (api : StackApi) where
  open api use {State, Holds, cap}

  pub pop_until-eq :
      (fuel : ℕ) (stop : ℤ → Bool) (m : Machine api) (xs : List ℤ)
      → Holds m.stack xs
      → length xs < fuel
      → (n : Machine api) × (pop_until api fuel stop m ≡ some n)
        × Holds n.stack (remaining stop xs)
        × (n.ch ≡ last_popped stop m.ch xs)
        × (n.out ≡ m.out ++ printed stop xs)
  unfolding pop_until
  pop_until-eq zero stop m xs held e = absurd (omega (arith, e))
  pop_until-eq (suc fuel) stop m [] held e =
      let (t, pops, held') = pop_nil api m.stack m.ch held in
      (record m { stack = t }, rw pops refl, held', refl, sym (append-nil m.out))
  pop_until-eq (suc fuel) stop m (x ∷ xs) held e =
      let (t, pops, held') = pop_cons api m.stack x xs m.ch held in
      elim (Bool-cases (stop x)) [
        | inl stops ↦ rw stops (
          record m { stack = t; ch = x },
          rw (pops, stops) refl,
          held',
          refl,
          sym (append-nil m.out),
        )
        | inr goes ↦
            let (n, runs, held'', ch, out) =
              pop_until-eq fuel stop (record m { stack = t; ch = x; out = m.out ++ (x ∷ []) }) xs
                held' (omega (arith, e)) in
            rw goes (
              n,
              rw (pops, goes) runs,
              held'',
              ch,
              out ∙ append_assoc m.out (x ∷ []) (printed stop xs),
            )
      ]

  pub push_char-eq :
      (c : ℤ) (m : Machine api) (xs : List ℤ)
      → Holds m.stack xs
      → length xs < cap
      → (t : State) × (push_char api c m ≡ some (record m { stack = t })) × Holds t (c ∷ xs)
  unfolding push_char
  push_char-eq c m xs held room =
      let (t, pushes, held') = push_room api m.stack xs c held room in (t, rw pushes refl, held')

  -- The cases of `+`, `-`, `*` and `/` where the loop does not end at a character that it has to
  -- put back, and where it does.
  pub rank-ends :
      (stop : ℤ → Bool) (c : ℕ) (m : Machine api) (xs : List ℤ)
      → Holds m.stack xs
      → length xs < cap
      → stop (last_popped stop m.ch xs) ≡ false
      → (n : Machine api) × (rank api stop c m ≡ some n)
        × Holds n.stack (pos c ∷ remaining stop xs)
        × (n.ch ≡ last_popped stop m.ch xs)
        × (n.out ≡ m.out ++ printed stop xs)
  unfolding rank
  rank-ends stop c m xs held room ends =
      let (n, runs, held', ch, out) = pop_until-eq (cap + 1) stop m xs held (omega (arith, room)) in
      let (t, pushes, held'') =
        push_char-eq (pos c) n (remaining stop xs) held'
          (omega (arith, room, length-remaining stop xs)) in
      (record n { stack = t }, rw (runs, ap stop ch ∙ ends, pushes) refl, held'', ch, out)

  pub rank-stops :
      (stop : ℤ → Bool) (c : ℕ) (m : Machine api) (xs : List ℤ)
      → Holds m.stack xs
      → length xs < cap
      → length (remaining stop xs) + 1 < cap
      → stop (last_popped stop m.ch xs) ≡ true
      → (n : Machine api) × (rank api stop c m ≡ some n)
        × Holds n.stack (pos c ∷ n.ch ∷ remaining stop xs)
        × (n.ch ≡ last_popped stop m.ch xs)
        × (n.out ≡ m.out ++ printed stop xs)
  unfolding rank
  rank-stops stop c m xs held room more ends =
      let (n, runs, held', ch, out) = pop_until-eq (cap + 1) stop m xs held (omega (arith, room)) in
      let (t, pushes, held₁) =
        push_char-eq n.ch n (remaining stop xs) held' (omega (arith, more)) in
      let (u, pushes', held₂) =
        push_char-eq (pos c) (record n { stack = t }) (n.ch ∷ remaining stop xs) held₁
          (omega (arith, more)) in
      (record n { stack = u }, rw (runs, ap stop ch ∙ ends, pushes, pushes') refl, held₂, ch, out)

  -- The same, with what the loop prints, leaves in `ch` and leaves on the stack by name.
  pub rank_ending :
      (stop : ℤ → Bool) (c : ℕ) (m : Machine api) (xs p r : List ℤ) (l : ℤ)
      → Holds m.stack xs
      → length xs < cap
      → printed stop xs ≡ p
      → remaining stop xs ≡ r
      → last_popped stop m.ch xs ≡ l
      → stop l ≡ false
      → (n : Machine api) × (rank api stop c m ≡ some n)
        × Holds n.stack (pos c ∷ r)
        × (n.ch ≡ l)
        × (n.out ≡ m.out ++ p)
  rank_ending stop c m xs p r l held room ep er el ends =
      rw (← ep, ← er, ← el) (rank-ends stop c m xs held room (ap stop el ∙ ends))

  pub rank_stopping :
      (stop : ℤ → Bool) (c : ℕ) (m : Machine api) (xs p r : List ℤ) (l : ℤ)
      → Holds m.stack xs
      → length xs < cap
      → printed stop xs ≡ p
      → remaining stop xs ≡ r
      → last_popped stop m.ch xs ≡ l
      → length r + 1 < cap
      → stop l ≡ true
      → (n : Machine api) × (rank api stop c m ≡ some n)
        × Holds n.stack (pos c ∷ l ∷ r)
        × (n.ch ≡ l)
        × (n.out ≡ m.out ++ p)
  rank_stopping stop c m xs p r l held room ep er el more ends =
      let (n, runs, held', ch, out) =
        rank-stops stop c m xs held room (omega (arith, more, ap length er)) (ap stop el ∙ ends) in
      (
        n,
        runs,
        subst (λ y. Holds n.stack (pos c ∷ y ∷ r)) (ch ∙ el)
            (subst (λ ys. Holds n.stack (pos c ∷ n.ch ∷ ys)) er held'),
        ch ∙ el,
        out ∙ ap (λ q. m.out ++ q) ep,
      )
