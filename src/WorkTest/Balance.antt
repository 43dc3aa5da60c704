-- ===== src/WorkTest/Balance.antt =====
-- What kernel_module/workqueue_test/work-test.c holds after its initialisation, and after its
-- removal.
use code_snippet.Prelude.{
  ℕ, ◌+◌, ◌-◌, ◌≡◌, ◌<◌, ◌⊎◌, inl, inr, refl, sym, ap, ◌∙◌, Bool, true, false, Option, none, some,
  List, [], ◌∷◌, ℤ, pos, negsuc, length, ltb_ℤ, All, side, ◌==ℤ◌, arith,
}
use mathlib.Core.Path.{subst}
use code_snippet.WorkTest.Creation.{IsGranted, IsReady, IsCreated, create_from-IsReady}
use code_snippet.WorkTest.Idr.{IdrApi, pointers}
use code_snippet.WorkTest.{
  Work, Held, item_idr_free, free_each, create_from, kretprobe_init, kretprobe_exit, init, remove,
}

module _ (api : IdrApi Work) where
  open api use {State, slot, visits, visits_slot}

  abbrev IsRunning : ℕ × Option Work → Type 0
  IsRunning v = (w : Work) → v.1 ≡ some w → w.kthread ≡ true

  -- As much is held as there are pointers.
  abbrev IsHeld : List (ℕ × Option Work) → Held → Type 0
  IsHeld vs h =
      (h.memory ≡ pointers vs)
      × (h.timers ≡ pointers vs)
      × (h.threads ≡ pointers vs)
      × ((h.g_cpuhp_state ==ℤ negsuc 0) ≡ false)

  -- Nothing is held, and the state of the CPUs was removed `count` times.
  abbrev IsReleased : ℕ → Held → Type 0
  IsReleased count h =
      (h.memory ≡ 0) × (h.timers ≡ 0) × (h.threads ≡ 0) × (h.proc ≡ false) × (h.removals ≡ count)

  free_each-IsReleased :
      (vs : List (ℕ × Option Work)) (h : Held)
      → All IsRunning vs
      → IsHeld vs h
      → h.proc ≡ false
      → (h' : Held) × (free_each vs h ≡ some h') × IsReleased (h.removals + pointers vs) h'
  unfolding free_each item_idr_free
  free_each-IsReleased [] h a (m, t, k, st) p = (h, refl, (m, t, k, p, omega arith))
  free_each-IsReleased ((id, none) ∷ vs) h a held p = free_each-IsReleased vs h a.1 held p
  free_each-IsReleased ((id, some w) ∷ vs) h a (m, t, k, st) p =
      let h₁ : Held = record h {
        removals = h.removals + 1;
        threads = h.threads - 1;
        timers = h.timers - 1;
        memory = h.memory - 1;
      } in
      let (h', runs, (mem, tim, thr, pro, rem)) =
        free_each-IsReleased vs h₁ a.1 (omega (arith, m), omega (arith, t), omega (arith, k), st)
          p in
      (h', rw (a.0 w refl, st, free_each) runs, (mem, tim, thr, pro, rem ∙ omega arith))

  -- Whether a slot's work, if there is one, has its thread.
  abbrev thread_of : Option (Option Work) → Bool
  thread_of (some (some w)) = w.kthread
  thread_of (some none) = true
  thread_of none = true

  slot-running :
      (n : ℕ) (s : State) (h : Held) (k : ℕ) → IsReady api n s h → thread_of (slot s k) ≡ true
  slot-running n s h k r = elim (side k n) [
    | inl below ↦ (let (w, used, (_, started)) = r.full k below in rw used started)
    | inr above ↦
        rw (r.free k (elim above [ inl e ↦ omega (arith, e) | inr l ↦ omega (arith, l) ])) refl
  ]

  running :
      (n : ℕ) (s : State) (h : Held)
      → IsReady api n s h
      → (vs : List (ℕ × Option Work)) → All (λ v. slot s v.0 ≡ some v.1) vs
      → All IsRunning vs
  running n s h r [] a = tt
  running n s h r ((id, p) ∷ vs) (here, a) =
      (λ w e. sym (ap thread_of (here ∙ ap some e)) ∙ slot-running n s h id r, running n s h r vs a)

  -- The removal of what an initialisation has built gives back all works, timers and threads and the
  -- probes and the file, and it removes the state of the CPUs once for each work.
  remove-IsReleased :
      (n : ℕ) (s : State) (h : Held)
      → IsReady api n s h
      → (h.g_cpuhp_state ==ℤ negsuc 0) ≡ false
      → (h' : Held) × (remove api s h ≡ some h')
        × IsReleased n h'
        × (h'.probe ≡ false)
        × (h'.wq_probe ≡ false)
  unfolding remove kretprobe_exit
  remove-IsReleased n s h r st =
      let v = r.visited in
      let (h₁, runs, released) =
        free_each-IsReleased (visits s) (record h { proc = false })
          (running n s h r (visits s) (visits_slot s))
          (r.memory ∙ sym v, r.timers ∙ sym v, r.threads ∙ sym v, st) refl in
      (
        kretprobe_exit h₁,
        rw (runs, remove) refl,
        (let (m, t, k, p, gone) = released in
            (m, t, k, p, gone ∙ rw (r.removals, v) (omega arith))),
        refl,
        refl,
      )

  -- A status of 0 with everything, which a removal gives back; or an error, and the works that were
  -- made before it are still there.
  abbrev pub IsOutcome : (count : ℕ) → ℤ × State × Held → Type 0
  IsOutcome count (rc, s, h) =
      ((rc ≡ pos 0)
        × IsReady api count s h
        × ((h' : Held) × (remove api s h ≡ some h')
            × IsReleased count h'
            × (h'.probe ≡ false)
            × (h'.wq_probe ≡ false)))
      ⊎ ((ltb_ℤ rc (pos 0) ≡ true) × (k : ℕ) × (k < count) × IsReady api k s h)

  same_held :
      (n : ℕ) (s : State) (h h' : Held)
      → IsReady api n s h
      → (h'.memory ≡ h.memory)
        × (h'.timers ≡ h.timers)
        × (h'.threads ≡ h.threads)
        × (h'.removals ≡ h.removals)
      → IsReady api n s h'
  same_held n s h h' r (m, t, k, c) = record {
    full = r.full;
    free = r.free;
    visited = r.visited;
    memory = m ∙ r.memory;
    timers = t ∙ r.timers;
    threads = k ∙ r.threads;
    removals = c ∙ r.removals;
  }

  probed :
      (ret₀ ret₁ : ℤ) (s : State) (h : Held)
      → IsReady api 0 s h
      → IsReady api 0 s (kretprobe_init ret₀ ret₁ h).1
  unfolding kretprobe_init
  probed ret₀ ret₁ s h r = same_held 0 s h _ r (ground arith)

  -- What the initialisation makes of the end of its loop.
  abbrev settled : ℤ → Option ℤ × State × Held → ℤ × State × Held
  settled state (some rc, s, h) = (rc, s, h)
  settled state (none, s, h) = (pos 0, s, record h { g_cpuhp_state = state; proc = true })

  settled-IsOutcome :
      (state : ℤ) (count : ℕ) (out : Option ℤ × State × Held)
      → (state ==ℤ negsuc 0) ≡ false
      → IsCreated api 0 count out
      → IsOutcome count (settled state out)
  settled-IsOutcome state count (some rc, s, h) st c =
      (let (negative, k, below, r) = c in inr (negative, k, omega (arith, below), r))
  settled-IsOutcome state count (none, s, h) st c =
      let r =
        same_held count s h (record h { g_cpuhp_state = state; proc = true })
          (subst (λ m. IsReady api m s h) (omega arith) c) (refl, refl, refl, refl) in
      inl (refl, r, remove-IsReleased count s _ r st)

  init-settled :
      (ret₀ ret₁ state : ℤ) (works : List (Bool × Bool)) (s : State) (h : Held)
      → (out : Option ℤ × State × Held)
      → create_from api (length works + 1) works s (kretprobe_init ret₀ ret₁ h).1 ≡ some out
      → init api ret₀ ret₁ state works s h ≡ some (settled state out)
  unfolding init
  init-settled ret₀ ret₁ state works s h (none, s', h') e = rw (e, init) refl
  init-settled ret₀ ret₁ state works s h (some rc, s', h') e = rw (e, init) refl

  -- With memory and a thread for every work and a state of the CPUs that is not -1, on an empty idr:
  -- the initialisation is defined. If it returns 0, the idr has the works from 0 on, in their number,
  -- each under its own number, with a timer, memory and a running thread for each, and the removal
  -- gives all of that back, and the probes and the file; but it removes the state of the CPUs once
  -- for each work. Otherwise the status is negative, and the works from 0 on up to one that is missing
  -- stay behind.
  pub init-IsOutcome :
      (ret₀ ret₁ state : ℤ) (works : List (Bool × Bool)) (s : State) (h : Held)
      → All IsGranted works
      → (state ==ℤ negsuc 0) ≡ false
      → IsReady api 0 s h
      → (out : ℤ × State × Held) × (init api ret₀ ret₁ state works s h ≡ some out)
        × IsOutcome (length works) out
  init-IsOutcome ret₀ ret₁ state works s h g st r =
      let (out, runs, c) =
        create_from-IsReady api (length works + 1) works 0 s _ g (probed ret₀ ret₁ s h r) in
      (
        settled state out,
        init-settled ret₀ ret₁ state works s h out runs,
        settled-IsOutcome state (length works) out st c,
      )
