-- ===== src/Power/Tower.antt =====
-- The loops over the stack compute the tower from its top.
use code_snippet.Prelude.{
  ℕ, zero, suc, ◌+◌, ◌-◌, ◌≡◌, ◌≤◌, ◌<◌, refl, sym, ◌∙◌, false, Option, Option-cases, inl, inr,
  none, some, List, [], ◌∷◌, ◌++◌, ℤ, ◌==◌, ◌>>=◌, length, arith,
}
use code_snippet.Prelude.Arrays.{get_elem?}
use code_snippet.Prelude.Focus.{rebuild, get_elem?-rebuild, length-rebuild}
use code_snippet.Stack.Api.{StackApi}
use code_snippet.Stack.Steps.{push_room, pop_cons}
use code_snippet.Power.Exponents.{raised, power-raised}
use code_snippet.Power.{push_from, pop_loop, caculate}

-- The tower of some numbers, the last one at the top: powers are taken from the right.
abbrev pub tower : List ℤ → ℤ → Option ℤ
tower [] y = some y
tower (x ∷ xs) y = tower xs y >>= λ e. raised x e

abbrev unwind : List ℤ → ℤ → Option ℤ → Option ℤ
unwind [] y ret = ret
unwind (z ∷ zs) y ret = raised z y >>= λ r. unwind zs r (some r)

bind_assoc : (o : Option ℤ) (f g : ℤ → Option ℤ) → (o >>= f >>= g) ≡ (o >>= λ r. f r >>= g)
bind_assoc none f g = refl
bind_assoc (some r) f g = refl

return_same : (o : Option ℤ) → (o >>= λ r. some r) ≡ o
return_same none = refl
return_same (some r) = refl

unwind-rebuild :
    (x : ℤ) (xs zs : List ℤ) (y : ℤ) (ret : Option ℤ)
    → unwind (rebuild (x ∷ xs) zs) y ret ≡ (tower (x ∷ xs) y >>= λ r. unwind zs r (some r))
unwind-rebuild x [] zs y ret = refl
unwind-rebuild x (w ∷ ws) zs y ret =
    unwind-rebuild w ws (x ∷ zs) y ret
    ∙ sym (bind_assoc (tower (w ∷ ws) y) (raised x) (λ r. unwind zs r (some r)))

last_elem :
    (xs : List ℤ) (y : ℤ) (rest : List ℤ) → get_elem? (xs ++ (y ∷ rest)) (length xs) ≡ some y
last_elem [] y rest = refl
last_elem (x ∷ xs) y rest = last_elem xs y rest

module _ (api : StackApi) where
  open api use {State, Holds, cap, is_empty_law, destroy_law, destroy}

  push_from-Holds :
      (pre xs rest : List ℤ) (i : ℕ) (s : State) (held : List ℤ)
      → i ≡ length pre
      → Holds s held
      → length held + length xs ≤ cap
      → (t : State) × (push_from api (length xs) i (rebuild pre (xs ++ rest)) s ≡ some t)
        × Holds t (rebuild xs held)
  unfolding push_from
  push_from-Holds pre [] rest i s held e holds room = (s, refl, holds)
  push_from-Holds pre (x ∷ xs) rest i s held e holds room =
      let (t, pushes, holds') = push_room api s held x holds (omega (arith, room)) in
      let (u, runs, holds'') =
        push_from-Holds (x ∷ pre) xs rest (i + 1) t (x ∷ held) (omega (arith, e)) holds'
          (omega (arith, room)) in
      (u, rw (get_elem?-rebuild pre (x ∷ xs ++ rest) i 0 (omega (arith, e)), pushes) runs, holds'')

  pop_loop-unwind :
      (fuel : ℕ) (zs : List ℤ) (y x : ℤ) (ret : Option ℤ) (s : State)
      → Holds s zs
      → length zs < fuel
      → (pop_loop api fuel y x ret s >>= λ p. destroy p.1 >>= λ d. p.0) ≡ unwind zs y ret
  unfolding pop_loop
  pop_loop-unwind zero zs y x ret s holds enough = absurd (omega (arith, enough))
  pop_loop-unwind (suc fuel) [] y x ret s holds enough =
      let (t, gone, freed) = destroy_law s [] holds in rw (is_empty_law s [] holds, gone) refl
  pop_loop-unwind (suc fuel) (z ∷ zs) y x ret s holds enough =
      let (t, pops, holds') = pop_cons api s z zs x holds in
      elim (Option-cases (raised z y)) [
        | inl missing ↦
            rw (is_empty_law s (z ∷ zs) holds, pops, power-raised z y ∙ missing, missing) refl
        | inr found ↦
            rw (is_empty_law s (z ∷ zs) holds, pops, power-raised z y ∙ found.1, found.1)
              (pop_loop-unwind fuel zs found.0 z (some found.0) t holds' (omega (arith, enough)))
      ]

  -- On an empty stack with room for all numbers but the last, `caculate` of two numbers or more
  -- gives their tower, with powers from the right, where a negative exponent counts as 0. It is
  -- undefined just where for a power on the way its exponent is beyond the range of `int`, or it or
  -- a power with a lower exponent is outside of the range of `long`.
  pub caculate-tower :
      (x : ℤ) (xs : List ℤ) (y : ℤ) (rest : List ℤ) (s : State) (old : ℤ)
      → Holds s []
      → length (x ∷ xs) ≤ cap
      → caculate api s old ((x ∷ xs) ++ (y ∷ rest)) (length (x ∷ xs) + 1) ≡ tower (x ∷ xs) y
  unfolding caculate
  caculate-tower x xs y rest s old holds room =
      let (t, pushes, holds') =
        push_from-Holds [] (x ∷ xs) (y ∷ rest) 0 s [] refl holds (omega (arith, room)) in
      let two : (length (x ∷ xs) + 1 == 1) ≡ false = ground arith in
      let rounds : length (x ∷ xs) + 1 - 1 ≡ length (x ∷ xs) = omega arith in
      rw (two, rounds, pushes, last_elem (x ∷ xs) y rest)
        (pop_loop-unwind (cap + 1) (rebuild (x ∷ xs) []) y old none t holds'
            (omega (arith, room, length-rebuild (x ∷ xs) []))
          ∙ unwind-rebuild x xs [] y none
          ∙ return_same (tower (x ∷ xs) y))
