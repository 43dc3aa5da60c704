-- ===== src/WorkTest/Listing.antt =====
-- The file in /proc of kernel_module/workqueue_test/work-test.c: what `c_start` and then `c_next`,
-- up to the end, give.
use code_snippet.Prelude.{
  ℕ, zero, suc, ◌+◌, ◌-◌, ◌≡◌, ◌≤◌, ◌<◌, refl, sym, ap, ap₂, ◌∙◌, Option, none, some, List, [], ◌∷◌,
  Option-cases, Bool-cases, inl, inr, ltb, ltb→lt, arith, ◌>>=◌,
}
use code_snippet.WorkTest.Idr.{IdrApi, pointer_in}
use code_snippet.WorkTest.{Work, c_start, c_next}

module _ (api : IdrApi Work) where
  open api use {State, limit, slot, idr_get_next, limit_none, next_some, next_none}

  -- The works from what was fetched to the end, on fuel.
  unfoldable pub list_from : ℕ → State → Option Work × ℕ → Option (List Work)
  list_from zero s fetched = none
  list_from (suc fuel) s (none, position) = some []
  list_from (suc fuel) s (some w, position) = do
    ws ← list_from fuel s (c_next api s position)
    some (w ∷ ws)

  -- All works from `position` to its end, by their numbers.
  unfoldable pub works_in : State → (pos count : ℕ) → List Work
  works_in s position zero = []
  works_in s position (suc count) =
      let rest = works_in s (position + 1) count in
      elim (pointer_in (slot s position)) [ none ↦ rest | some w ↦ w ∷ rest ]

  works_in-skip :
      (s : State) (d position id count : ℕ)
      → position + d ≡ id
      → ((k : ℕ) → position ≤ k → k < id → pointer_in (slot s k) ≡ none)
      → works_in s position (d + count) ≡ works_in s id count
  unfolding works_in
  works_in-skip s zero position id count e h = ap₂ (works_in s) (omega (arith, e)) (omega arith)
  works_in-skip s (suc d) position id count e h =
      let e' : suc d + count ≡ suc (d + count) = omega arith in
      ap (works_in s position) e'
      ∙ rw (h position (omega arith) (omega (arith, e)), works_in)
          (works_in-skip s d (position + 1) id count (omega (arith, e))
            (λ k a b. h k (omega (arith, a)) b))

  works_in-none :
      (s : State) (position count : ℕ)
      → ((k : ℕ) → position ≤ k → pointer_in (slot s k) ≡ none)
      → works_in s position count ≡ []
  unfolding works_in
  works_in-none s position zero h = refl
  works_in-none s position (suc count) h =
      rw (h position (omega arith), works_in)
        (works_in-none s (position + 1) count (λ k a. h k (omega (arith, a))))

  below_limit : (s : State) (k : ℕ) (w : Work) → pointer_in (slot s k) ≡ some w → k < limit
  below_limit s k w h = elim (Bool-cases (ltb k limit)) [
    | inl below ↦ ltb→lt k limit below
    | inr above ↦ absurd (ground (arith, h, limit_none s k (ground (arith, above))))
  ]

  works_in-next :
      (s : State) (position id : ℕ) (w : Work)
      → idr_get_next s position ≡ some (id, w)
      → works_in s position (limit - position) ≡ w ∷ works_in s (id + 1) (limit - (id + 1))
  unfolding works_in
  works_in-next s position id w e =
      let (le, here, skipped) = next_some s position id w e in
      let below = below_limit s id w here in
      ap (works_in s position) (omega (arith, le, below))
      ∙ works_in-skip s (id - position) position id (suc (limit - (id + 1))) (omega (arith, le))
          skipped
      ∙ rw (here, works_in) refl

  c_next-none :
      (s : State) (position : ℕ)
      → idr_get_next s position ≡ none
      → c_next api s position ≡ (none, position + 1)
  unfolding c_next
  c_next-none s position e = rw (e, c_next) refl

  c_next-some :
      (s : State) (position id : ℕ) (w : Work)
      → idr_get_next s position ≡ some (id, w)
      → c_next api s position ≡ (some w, id + 1)
  unfolding c_next
  c_next-some s position id w e = rw (e, c_next) refl

  list_from-works :
      (fuel : ℕ) (s : State) (position : ℕ)
      → limit < fuel + position
      → 0 < fuel
      → list_from fuel s (c_next api s position) ≡ some (works_in s position (limit - position))
  unfolding list_from
  list_from-works zero s position h k = absurd (omega (arith, k))
  list_from-works (suc fuel) s position h k = elim (Option-cases (idr_get_next s position)) [
    | inl e ↦
        rw
          (
            c_next-none s position e,
            works_in-none s position (limit - position) (λ j a. next_none s position j e a),
            list_from,
          )
          refl
    | inr ((id, w), e) ↦
        let (le, here, _) = next_some s position id w e in
        let below = below_limit s id w here in
        rw
          (
            c_next-some s position id w e,
            works_in-next s position id w e,
            list_from-works fuel s (id + 1) (omega (arith, h, le)) (omega (arith, h, le, below)),
            list_from,
          )
          refl
  ]

  c_start-c_next : (s : State) (position : ℕ) → c_start api s position ≡ c_next api s position
  unfolding c_start c_next
  c_start-c_next s position = refl

  -- A listing from any position is defined, and it has the works that the idr holds from there on,
  -- each once, in the order of their numbers.
  pub list_from-c_start :
      (s : State) (position : ℕ)
      → list_from (limit + 1) s (c_start api s position)
        ≡ some (works_in s position (limit - position))
  list_from-c_start s position =
      rw (c_start-c_next s position)
        (list_from-works (limit + 1) s position (omega arith) (omega arith))

  abbrev with_rest : State → Option Work × ℕ → List Work
  with_rest s (none, position) = []
  with_rest s (some w, position) = w ∷ works_in s position (limit - position)

  -- Where `c_next` has fetched a work, a listing from the position before it is this work and then
  -- those that the idr holds from the new position on, each once, in the order of their numbers; and
  -- a listing from the new position has only the latter: a reader that stops between `c_next` and
  -- `c_show`, and starts again at the position, misses the work.
  pub list_from-c_next :
      (s : State) (position position' : ℕ) (w : Work)
      → c_next api s position ≡ (some w, position')
      → (list_from (limit + 1) s (c_start api s position)
          ≡ some (w ∷ works_in s position' (limit - position')))
        × (list_from (limit + 1) s (c_start api s position')
            ≡ some (works_in s position' (limit - position')))
  list_from-c_next s position position' w e = elim (Option-cases (idr_get_next s position)) [
    | inl f ↦ absurd (ground (arith, e, c_next-none s position f))
    | inr ((id, v), f) ↦
        let same = sym (c_next-some s position id v f) ∙ e in
        (
          list_from-c_start s position
              ∙ ap some (works_in-next s position id v f ∙ ap (with_rest s) same),
          list_from-c_start s position',
        )
  ]
