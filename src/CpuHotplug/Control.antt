-- ===== src/CpuHotplug/Control.antt =====
-- The thread brings the number of online CPUs between the bounds, if these allow it.
use code_snippet.Prelude.{
  ℕ, zero, suc, ◌+◌, ◌-◌, ◌≤◌, ◌<◌, ◌≡◌, refl, ap, ◌∙◌, Bool, true, false, none, some, List, ◌∷◌,
  ◌++◌, ltb, replicate, arith, Bool-cases, inl, inr,
}
use Prim.Native.Nat
use code_snippet.Prelude.Arrays.{get_or, set}
use code_snippet.CpuHotplug.{Status, uint_mod, need_adjust, do_core_ctl, run_until_idle}

-- `k` CPUs on line, and behind them `m` that are not.
abbrev pub lowest : ℕ → ℕ → List Bool
lowest k m = replicate k true ++ replicate m false

lowest-offline :
    (k m : ℕ)
    → (get_or (lowest (suc k) m) k false ≡ true)
      × (set (lowest (suc k) m) k false ≡ lowest k (suc m))
lowest-offline zero m = (refl, refl)
lowest-offline (suc k) m =
    let (got, changed) = lowest-offline k m in (got, ap (λ l. true ∷ l) changed)

lowest-online :
    (k m : ℕ)
    → (get_or (lowest k (suc m)) k true ≡ false)
      × (set (lowest k (suc m)) k true ≡ lowest (suc k) m)
lowest-online zero m = (refl, refl)
lowest-online (suc k) m =
    let (got, changed) = lowest-online k m in (got, ap (λ l. true ∷ l) changed)

-- Of the `k + m` CPUs the first `k` are on line, and the module has counted them.
pub record IsLowest (k m : ℕ) (s : Status) : Type 0 where
  pub counted : s.online_cpus ≡ k
  pub prefix : s.cpus ≡ lowest k m
  pub small : k + m < uint_mod

-- The bounds are as before.
abbrev pub SameBounds : Status → Status → Type 0
SameBounds s t = (t.min ≡ s.min) × (t.max ≡ s.max)

module _ (allowed : ℕ → Bool) where
  offline_round :
      (k m : ℕ) (s : Status)
      → IsLowest (suc k) m s
      → allowed k ≡ true
      → s.max < suc k
      → IsLowest k (suc m) (do_core_ctl allowed s) × SameBounds s (do_core_ctl allowed s)
  unfolding do_core_ctl
  offline_round k m s low ok above =
      let top : s.online_cpus - 1 ≡ k = omega arith in
      let is_above : ltb s.max s.online_cpus ≡ true = ground arith in
      let held : get_or s.cpus k false ≡ true = cc (low.prefix, (lowest-offline k m).0) in
      let changed : set s.cpus k false ≡ lowest k (suc m) =
        cc (low.prefix, (lowest-offline k m).1) in
      rw (is_above, top, held, ok, changed) (ground arith)

  online_round :
      (k m : ℕ) (s : Status)
      → IsLowest k (suc m) s
      → allowed k ≡ true
      → k ≤ s.max
      → k < s.min
      → IsLowest (suc k) m (do_core_ctl allowed s) × SameBounds s (do_core_ctl allowed s)
  unfolding do_core_ctl
  online_round k m s low ok not_above below =
      let is_above : ltb s.max s.online_cpus ≡ false = ground arith in
      let is_below : ltb s.online_cpus s.min ≡ true = ground arith in
      let free : get_or s.cpus s.online_cpus true ≡ false =
        cc (low.prefix, low.counted, (lowest-online k m).0) in
      let changed : set s.cpus s.online_cpus true ≡ lowest (suc k) m =
        cc (low.prefix, low.counted, (lowest-online k m).1) in
      let may : allowed s.online_cpus ≡ true = cc (low.counted, ok) in
      rw (is_above, is_below, free, may, changed) (ground arith)

  -- How the loop ends.
  abbrev pub Settles : Status → ℕ → ℕ → ℕ → Type 0
  Settles s fuel k m =
      (t : Status) × (run_until_idle allowed fuel s ≡ some t) × IsLowest k m t × SameBounds s t

  busy_above : (n m : ℕ) (s : Status) → IsLowest n m s → s.max < n → need_adjust s ≡ true
  unfolding need_adjust
  busy_above n m s low h = ground arith

  busy_below : (n m : ℕ) (s : Status) → IsLowest n m s → n < s.min → need_adjust s ≡ true
  unfolding need_adjust
  busy_below n m s low h = ground arith

  idle :
      (fuel k m : ℕ) (s : Status)
      → IsLowest k m s
      → s.min ≤ k
      → k ≤ s.max
      → Settles s (suc fuel) k m
  unfolding run_until_idle
  idle fuel k m s low above below =
      let done : need_adjust s ≡ false = unfold need_adjust in ground arith in
      rw done (s, refl, low, (refl, refl))

  step :
      (fuel k m : ℕ) (s : Status)
      → need_adjust s ≡ true
      → SameBounds s (do_core_ctl allowed s)
      → Settles (do_core_ctl allowed s) fuel k m
      → Settles s (suc fuel) k m
  unfolding run_until_idle
  step fuel k m s busy same (t, e, low, bounds) =
      rw busy (t, e, low, (bounds.0 ∙ same.0, bounds.1 ∙ same.1))

  module _ (free : (cpu : ℕ) → 0 < cpu → allowed cpu ≡ true) (lo hi : ℕ) (ordered : lo ≤ hi) where
    descend :
        (n m r fuel : ℕ) (s : Status)
        → IsLowest n m s
        → s.min ≡ lo
        → s.max ≡ hi
        → 0 < hi
        → hi ≤ n
        → n + m ≡ hi + r
        → n < hi + fuel
        → Settles s fuel hi r
    descend n m r zero s low emin emax some_cpu above total fuel = absurd (omega arith)
    descend zero m r (suc f) s low emin emax some_cpu above total fuel = absurd (omega arith)
    descend (suc k) m r (suc f) s low emin emax some_cpu above total fuel =
        elim (Bool-cases (ltb hi (suc k))) [
          | inl more ↦
              let (low', same) = offline_round k m s low (free k (ground arith)) (ground arith) in
              step f hi r s (busy_above (suc k) m s low (ground arith)) same (
                descend k (suc m) r f (do_core_ctl allowed s) low' (same.0 ∙ emin) (same.1 ∙ emax)
                  some_cpu (ground arith) (omega arith) (omega arith))
          | inr reached ↦
              let here : suc k ≡ hi = ground arith in
              let left : m ≡ r = omega arith in
              rw (← here, ← left) (idle f (suc k) m s low (omega arith) (omega arith))
        ]

    ascend :
        (n m r fuel : ℕ) (s : Status)
        → IsLowest n m s
        → s.min ≡ lo
        → s.max ≡ hi
        → 0 < n
        → n ≤ lo
        → n + m ≡ lo + r
        → lo < n + fuel
        → Settles s fuel lo r
    ascend n m r zero s low emin emax some_cpu below total fuel = absurd (omega arith)
    ascend n zero r (suc f) s low emin emax some_cpu below total fuel =
        let here : n ≡ lo = omega arith in
        let left : 0 ≡ r = omega arith in
        rw (← here, ← left) (idle f n 0 s low (omega arith) (omega arith))
    ascend n (suc m) r (suc f) s low emin emax some_cpu below total fuel =
        elim (Bool-cases (ltb n lo)) [
          | inl less ↦
              let (low', same) =
                online_round n m s low (free n some_cpu) (omega arith) (ground arith) in
              step f lo r s (busy_below n (suc m) s low (ground arith)) same (
                ascend (suc n) m r f (do_core_ctl allowed s) low' (same.0 ∙ emin) (same.1 ∙ emax)
                  (omega arith) (ground arith) (omega arith) (omega arith))
          | inr reached ↦
              let here : n ≡ lo = ground arith in
              let left : suc m ≡ r = omega arith in
              rw (← here, ← left) (idle f n (suc m) s low (omega arith) (omega arith))
        ]

  -- With `n` of `n + m` CPUs on line, the first ones, and bounds that are in order and can be met, the
  -- thread goes to sleep after at most `n + m` rounds. Then as many CPUs are on line as the bounds
  -- ask for, still the first ones: `n` moved into the range from `min` to `max`. The kernel has to
  -- allow this for every CPU but the first, which stays on line.
  pub run_until_idle-Settles :
      ((cpu : ℕ) → 0 < cpu → allowed cpu ≡ true)
      → (n m : ℕ) (s : Status) → IsLowest n m s
      → 0 < n
      → s.min ≤ s.max
      → 0 < s.max
      → s.min ≤ n + m
      → let goal = Nat.max s.min (Nat.min n s.max) in Settles s (suc (n + m)) goal (n + m - goal)
  run_until_idle-Settles free n m s low some_cpu ordered some_max possible =
      elim (Bool-cases (ltb n s.min)) [
        | inl below ↦
            let goal : Nat.max s.min (Nat.min n s.max) ≡ s.min = ground arith in
            rw goal (
              ascend free s.min s.max ordered n m (n + m - s.min) (suc (n + m)) s low refl refl
                some_cpu (ground arith) (omega arith) (omega arith))
        | inr enough ↦ elim (Bool-cases (ltb s.max n)) [
          | inl above ↦
              let goal : Nat.max s.min (Nat.min n s.max) ≡ s.max = ground arith in
              rw goal (
                descend free s.min s.max ordered n m (n + m - s.max) (suc (n + m)) s low refl refl
                  some_max (ground arith) (ground arith) (omega arith))
          | inr within ↦
              let goal : Nat.max s.min (Nat.min n s.max) ≡ n = ground arith in
              let left : n + m - n ≡ m = omega arith in
              rw (goal, left) (idle (n + m) n m s low (ground arith) (ground arith))
        ]
      ]

  do_core_ctl-SameBounds : (s : Status) → SameBounds s (do_core_ctl allowed s)
  unfolding do_core_ctl
  do_core_ctl-SameBounds s = ground arith

  -- With `max` below `min`, which a write to the device may set, the thread never goes to sleep.
  pub run_until_idle-spins :
      (fuel : ℕ) (s : Status) → s.max < s.min → run_until_idle allowed fuel s ≡ none
  unfolding run_until_idle
  run_until_idle-spins zero s crossed = refl
  run_until_idle-spins (suc fuel) s crossed =
      let same = do_core_ctl-SameBounds s in
      let busy : need_adjust s ≡ true = unfold need_adjust in ground arith in
      rw busy (run_until_idle-spins fuel (do_core_ctl allowed s) (omega arith))
