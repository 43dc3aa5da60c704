-- ===== src/WorkTest/Creation.antt =====
-- What kernel_module/workqueue_test/work-test.c holds after the loop of its initialisation.
use code_snippet.Prelude.{
  ℕ, suc, ◌+◌, ◌≡◌, ◌≢◌, ◌≤◌, ◌<◌, inl, inr, refl, ap, ◌∙◌, Bool, true, false, Option, none, some,
  List, [], ◌∷◌, ℤ, pos, negsuc, length, ltb_ℤ, All, side, ℤ-cases, arith,
}
use mathlib.Core.Path.{subst}
use code_snippet.WorkTest.Idr.{IdrApi, pointers}
use code_snippet.WorkTest.{Work, Held, create_from}

-- Memory and a thread for a work.
abbrev pub IsGranted : Bool × Bool → Type 0
IsGranted (kzalloc, thread) = (kzalloc ≡ true) × (thread ≡ true)

abbrev pub IsNew : ℕ → Work → Type 0
IsNew id w = (w.id ≡ id) × (w.kthread ≡ true)

module _ (api : IdrApi Work) where
  open api use {
    State, slot, idr_alloc, idr_replace, visits, alloc_some, alloc_none, replace_some, visits_slot,
  }

  -- The idr has a work for each number below `n`, with its number and its thread, and nothing else;
  -- and `n` of everything is held.
  pub record IsReady (n : ℕ) (s : State) (h : Held) : Type 0 where
    pub full : (k : ℕ) → k < n → (w : Work) × (slot s k ≡ some (some w)) × IsNew k w
    pub free : (k : ℕ) → n ≤ k → slot s k ≡ none
    pub visited : pointers (visits s) ≡ n
    pub memory : h.memory ≡ n
    pub timers : h.timers ≡ n
    pub threads : h.threads ≡ n
    pub removals : h.removals ≡ 0

  lowest :
      (past n id : ℕ) (s : State) (h : Held)
      → IsReady n s h
      → (idr_alloc past s).0 ≡ pos id
      → id ≡ n
  lowest past n id s h r e =
      let (unused, taken, _, _, _) = alloc_some past s id e in
      elim (side id n) [
        | inl below ↦ (let (w, used, _) = r.full id below in absurd (ground (arith, used, unused)))
        | inr (inl same) ↦ same
        | inr (inr above) ↦ absurd (taken n above (r.free n (omega arith)))
      ]

  add_work :
      (past n : ℕ) (s : State) (h : Held) (w : Work)
      → IsReady n s h
      → (idr_alloc past s).0 ≡ pos n
      → IsNew n w
      → IsReady
          (n + 1)
          (idr_replace w n (idr_alloc past s).1)
          (record h { memory = h.memory + 1; timers = h.timers + 1; threads = h.threads + 1 })
  add_work past n s h w r e new =
      let (_, _, null, apart, kept) = alloc_some past s n e in
      let (here, apart', more) = replace_some w n (idr_alloc past s).1 null in
      record {
        full = λ k below. elim (side k n) [
          | inl lower ↦
              (let (v, used, fits) = r.full k lower in
                (
                  v,
                  (let ne : k ≢ n = λ same. omega (arith, lower, same) in
                      apart' k ne ∙ apart k ne ∙ used),
                  fits,
                ))
          | inr (inl same) ↦ (w, rw same here, rw same new)
          | inr (inr above) ↦ absurd (omega (arith, below, above))
        ];
        free = λ k above.
            let ne : k ≢ n = λ same. omega (arith, above, same) in
            apart' k ne ∙ apart k ne ∙ r.free k (omega (arith, above));
        visited = more ∙ ap (λ m. m + 1) (kept ∙ r.visited);
        memory = ap (λ m. m + 1) r.memory;
        timers = ap (λ m. m + 1) r.timers;
        threads = ap (λ m. m + 1) r.threads;
        removals = r.removals;
      }

  -- What a loop of the initialisation that began with `n` works leaves for `count` more of them: all
  -- of them, or those before the one for which `idr_alloc` failed.
  abbrev pub IsCreated : ℕ → ℕ → Option ℤ × State × Held → Type 0
  IsCreated n count (none, s, h) = IsReady (n + count) s h
  IsCreated n count (some e, s, h) =
      (ltb_ℤ e (pos 0) ≡ true) × (k : ℕ) × (k < n + count) × IsReady k s h

  abbrev new_work : ℕ → Work
  new_work id = record {
    id = id;
    last_run_cpu = 0;
    timer_cpu = 0;
    kthread_cpu = 0;
    delay_time = 0;
    kthread = true;
  }

  abbrev more : Held → Held
  more h = record h { memory = h.memory + 1; timers = h.timers + 1; threads = h.threads + 1 }

  granted_turn :
      (past id : ℕ) (works : List (Bool × Bool)) (s : State) (h : Held)
      → (idr_alloc past s).0 ≡ pos id
      → create_from api past ((true, true) ∷ works) s h
        ≡ create_from api past works (idr_replace (new_work id) id (idr_alloc past s).1) (more h)
  unfolding create_from
  granted_turn past id works s h e = rw (e, create_from) refl

  failed_turn :
      (past e : ℕ) (w : Bool × Bool) (works : List (Bool × Bool)) (s : State) (h : Held)
      → (idr_alloc past s).0 ≡ negsuc e
      → create_from api past (w ∷ works) s h ≡ some (some (negsuc e), (idr_alloc past s).1, h)
  unfolding create_from
  failed_turn past e (a, b) works s h f = rw (f, create_from) refl

  IsCreated-more :
      (n count : ℕ) (out : Option ℤ × State × Held)
      → IsCreated (n + 1) count out
      → IsCreated n (suc count) out
  IsCreated-more n count (none, s, h) c = subst (λ m. IsReady m s h) (omega arith) c
  IsCreated-more n count (some e, s, h) (negative, k, below, r) =
      (negative, k, omega (arith, below), r)

  -- With memory and a thread for each of them, the loop is defined.
  pub create_from-IsReady :
      (past : ℕ) (works : List (Bool × Bool)) (n : ℕ) (s : State) (h : Held)
      → All IsGranted works
      → IsReady n s h
      → (out : Option ℤ × State × Held) × (create_from api past works s h ≡ some out)
        × IsCreated n (length works) out
  unfolding create_from
  create_from-IsReady past [] n s h g r =
      ((none, s, h), refl, subst (λ m. IsReady m s h) (omega arith) r)
  create_from-IsReady past ((true, true) ∷ works) n s h g r = elim (ℤ-cases (idr_alloc past s).0) [
    | inl (id, e) ↦
        let e' = e ∙ ap pos (lowest past n id s h r e) in
        let (out, runs, c) =
          create_from-IsReady past works (n + 1) _ _ g.1
            (add_work past n s h (new_work n) r e' (refl, refl)) in
        (out, granted_turn past n works s h e' ∙ runs, IsCreated-more n (length works) out c)
    | inr (e, f) ↦ (
      (some (negsuc e), (idr_alloc past s).1, h),
      failed_turn past e (true, true) works s h f,
      (ground arith, n, omega arith, rw (alloc_none past s e f) r),
    )
  ]
  create_from-IsReady past ((false, b) ∷ works) n s h g r = absurd (ground (arith, g))
  create_from-IsReady past ((true, false) ∷ works) n s h g r = absurd (ground (arith, g))
