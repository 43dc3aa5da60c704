-- ===== src/CpuHotplug/Counting.antt =====
-- The module's count of online CPUs is the number of CPUs that are online, whatever happens.
use code_snippet.Prelude.{
  ℕ, zero, suc, ◌-◌, ◌≤◌, ◌<◌, ◌≡◌, refl, Bool, true, false, List, [], ◌∷◌, length, ltb, arith,
  Bool-cases, inl, inr,
}
use code_snippet.Prelude.Arrays.{get_or, set, length-set}
use code_snippet.CpuHotplug.{Status, uint_mod, offline_core, online_core, do_core_ctl}

unfoldable pub count : List Bool → ℕ
count [] = 0
count (true ∷ bs) = suc (count bs)
count (false ∷ bs) = count bs

count-le : (bs : List Bool) → count bs ≤ length bs
unfolding count
count-le [] = omega arith
count-le (true ∷ bs) = omega (arith, count-le bs)
count-le (false ∷ bs) = omega (arith, count-le bs)

count-set-true :
    (bs : List Bool) (i : ℕ) → get_or bs i true ≡ false → count (set bs i true) ≡ suc (count bs)
unfolding count
count-set-true [] i h = cc
count-set-true (true ∷ bs) zero h = cc
count-set-true (false ∷ bs) zero h = refl
count-set-true (true ∷ bs) (suc i) h = omega (arith, count-set-true bs i h)
count-set-true (false ∷ bs) (suc i) h = count-set-true bs i h

count-set-false :
    (bs : List Bool) (i : ℕ) → get_or bs i false ≡ true → suc (count (set bs i false)) ≡ count bs
unfolding count
count-set-false [] i h = cc
count-set-false (true ∷ bs) zero h = refl
count-set-false (false ∷ bs) zero h = cc
count-set-false (true ∷ bs) (suc i) h = omega (arith, count-set-false bs i h)
count-set-false (false ∷ bs) (suc i) h = count-set-false bs i h

-- The count is right, and there are fewer CPUs than the counter can count.
pub record IsCounted (s : Status) : Type 0 where
  pub counted : s.online_cpus ≡ count s.cpus
  pub small : length s.cpus < uint_mod

module _ (allowed : ℕ → Bool) where
  -- What can happen: a CPU goes off or on line at anybody's wish, the thread does a round, user space
  -- writes new bounds.
  pub data Step (s : Status) : Status → Type 0 where
    offline : (cpu : ℕ) → Step s (offline_core allowed cpu s)
    online : (cpu : ℕ) → Step s (online_core allowed cpu s)
    control : Step s (do_core_ctl allowed s)
    write : (min max woken : ℕ) → Step s (record s { min = min; max = max; woken = woken })

  pub data Reach (s : Status) : Status → Type 0 where
    here : Reach s s
    next : {t u : Status} → Reach s t → Step t u → Reach s u

  pub offline_core-IsCounted :
      (cpu : ℕ) (s : Status) → IsCounted s → IsCounted (offline_core allowed cpu s)
  unfolding offline_core
  offline_core-IsCounted cpu s c =
      ground (arith, count-set-false s.cpus cpu, length-set s.cpus cpu false, count-le s.cpus)

  pub online_core-IsCounted :
      (cpu : ℕ) (s : Status) → IsCounted s → IsCounted (online_core allowed cpu s)
  unfolding online_core
  online_core-IsCounted cpu s c =
      ground (
        arith,
        count-set-true s.cpus cpu,
        length-set s.cpus cpu true,
        count-le (set s.cpus cpu true),
      )

  Step-IsCounted : {s t : Status} → Step s t → IsCounted s → IsCounted t
  unfolding do_core_ctl
  Step-IsCounted {s} (offline cpu) c = offline_core-IsCounted cpu s c
  Step-IsCounted {s} (online cpu) c = online_core-IsCounted cpu s c
  Step-IsCounted {s} control c = elim (Bool-cases (ltb s.max s.online_cpus)) [
    | inl above ↦ rw above (offline_core-IsCounted (s.online_cpus - 1) s c)
    | inr not_above ↦ rw not_above (elim (Bool-cases (ltb s.online_cpus s.min)) [
      | inl below ↦ rw below (online_core-IsCounted s.online_cpus s c)
      | inr neither ↦ rw neither c
    ])
  ]
  Step-IsCounted (write min max woken) c = record { counted = c.counted; small = c.small }

  -- However the CPUs come and go, the thread works and user space changes the bounds: from a right
  -- count only states with a right count are reached.
  pub Reach-IsCounted : {s t : Status} → IsCounted s → Reach s t → IsCounted t
  Reach-IsCounted c here = c
  Reach-IsCounted c (next r st) = Step-IsCounted st (Reach-IsCounted c r)
