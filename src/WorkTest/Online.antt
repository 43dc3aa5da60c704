-- ===== src/WorkTest/Online.antt =====
-- `wq_test_cpu_online` of kernel_module/workqueue_test/work-test.c after the initialisation.
use code_snippet.Prelude.{
  ℕ, zero, suc, ◌+◌, ◌%◌, ◌≡◌, ◌≤◌, ◌<◌, ◌≢◌, refl, sym, side, ◌∙◌, Option, ap, ap₂, none, some,
  List, [], ◌∷◌, map, ◌==◌, inl, inr, Bool-cases, Option-cases, if◌then◌else◌, arith,
}
use code_snippet.WorkTest.Idr.{IdrApi, pointer_in}
use code_snippet.WorkTest.{Work, Held, rebind, wq_test_cpu_online}
use code_snippet.WorkTest.Creation.{IsReady}

-- The numbers from `i` on that belong to `cpu`.
abbrev pub belonging : (nr_cpus cpu rounds i : ℕ) → List ℕ
belonging nr_cpus cpu zero i = []
belonging nr_cpus cpu (suc rounds) i =
    let rest = belonging nr_cpus cpu rounds (i + 1) in if i % nr_cpus == cpu then i ∷ rest else rest

module _ (api : IdrApi Work) where
  open api use {State, slot, idr_get_next, next_some, next_none}

  abbrev number_in : ℕ → Option Work → ℕ
  number_in k none = k
  number_in k (some w) = w.id

  same_number :
      (n : ℕ) (s : State) (h : Held) (i : ℕ) (w : Work)
      → IsReady api n s h
      → i < n
      → pointer_in (slot s i) ≡ some w
      → w.id ≡ i
  same_number n s h i w r below here =
      let (v, used, (num, _)) = r.full i below in
      ap (number_in i) (sym here ∙ ap pointer_in used) ∙ num

  no_gap :
      (n : ℕ) (s : State) (h : Held) (i : ℕ)
      → IsReady api n s h
      → i < n
      → pointer_in (slot s i) ≢ none
  no_gap n s h i r below e =
      let (v, used, _) = r.full i below in ground (arith, sym (ap pointer_in used) ∙ e)

  next-ready :
      (n : ℕ) (s : State) (h : Held) (i : ℕ)
      → IsReady api n s h
      → i < n
      → (w : Work) × (idr_get_next s i ≡ some (i, w)) × (w.id ≡ i)
  next-ready n s h i r below = elim (Option-cases (idr_get_next s i)) [
    | inl e ↦ absurd (no_gap n s h i r below (next_none s i i e (omega arith)))
    | inr ((id, w), e) ↦
        let (le, here, before) = next_some s i id w e in
        elim (side i id) [
          | inl gap ↦ absurd (no_gap n s h i r below (before i (omega arith) gap))
          | inr (inl same) ↦ (
            w,
            e ∙ ap (λ k. some (k, w)) (sym same),
            same_number n s h i w r below (ap (λ k. pointer_in (slot s k)) same ∙ here),
          )
          | inr (inr above) ↦ absurd (omega (arith, le, above))
        ]
  ]

  rebind-belonging :
      (n nr_cpus cpu : ℕ) (s : State) (h : Held) (rounds i : ℕ)
      → IsReady api n s h
      → i + rounds ≤ n
      → (ws : List Work) × (rebind api nr_cpus cpu s rounds i ≡ some ws)
        × (map (λ w. w.id) ws ≡ belonging nr_cpus cpu rounds i)
  unfolding rebind
  rebind-belonging n nr_cpus cpu s h zero i r below = ([], refl, refl)
  rebind-belonging n nr_cpus cpu s h (suc rounds) i r below =
      let (w, fetched, same) = next-ready n s h i r (omega (arith, below)) in
      let (ws, runs, ids) =
        rebind-belonging n nr_cpus cpu s h rounds (i + 1) r (omega (arith, below)) in
      elim (Bool-cases (i % nr_cpus == cpu)) [
        | inl own ↦
            (w ∷ ws, rw (own, fetched, runs, rebind) refl, rw own (ap₂ (λ k l. k ∷ l) same ids))
        | inr other ↦ (ws, rw (other, runs, rebind) refl, rw other ids)
      ]

  -- With the works that the initialisation makes, the callback is defined for every CPU, and it
  -- starts the timers of the works whose number modulo the number of CPUs is that of the CPU.
  pub wq_test_cpu_online-belonging :
      (n nr_cpus cpu : ℕ) (s : State) (h : Held)
      → IsReady api n s h
      → (ws : List Work) × (wq_test_cpu_online api n nr_cpus cpu s ≡ some ws)
        × (map (λ w. w.id) ws ≡ belonging nr_cpus cpu n 0)
  unfolding wq_test_cpu_online
  wq_test_cpu_online-belonging n nr_cpus cpu s h r =
      rebind-belonging n nr_cpus cpu s h n 0 r (omega arith)
