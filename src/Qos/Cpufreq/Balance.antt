-- ===== src/Qos/Cpufreq/Balance.antt =====
-- What the initialisation and the exit of cpufreq-qos.c give back.
use code_snippet.Prelude.{
  Bool, ◌&&◌, ◌≡◌, ◌⊎◌, true, false, not, none, some, List, [], ◌∷◌, map, ℤ, pos, ltb_ℤ, ◌==ℤ◌,
  ◌==◌, if◌then◌else◌,
}
use code_snippet.Qos.Cpufreq.Lifetime.{CpuResults, Results, Cpu, Held, untouched, last_cpu, exit}

-- A CPU that holds everything.
abbrev pub ready : CpuResults → Cpu
ready c = record {
  policy = c.policy;
  null_puts = 0;
  cdev = true;
  device = true;
  symlink = c.symlink;
}

-- A CPU that has given back everything; where it has no policy, NULL was given back in its place.
abbrev pub returned : Bool → Cpu
returned policy = record untouched { null_puts = if policy then 0 else 1 }

abbrev pub is_ready : CpuResults → Bool
is_ready c = c.cdev_add ==ℤ pos 0 && not (ltb_ℤ c.device_create (pos 0))

abbrev pub are_ready : List CpuResults → Bool
are_ready [] = true
are_ready (c ∷ cs) = is_ready c && are_ready cs

-- The CPUs after the label FAIL: those behind the first that is not ready have no policy yet.
abbrev pub after_failure : List CpuResults → List Cpu
after_failure [] = []
after_failure (c ∷ cs) =
    returned c.policy ∷ (if is_ready c then after_failure cs else map (λ _. returned false) cs)

-- The status for the first CPU that is not ready: that of `cdev_add`, or 0 where `device_create`
-- failed.
abbrev pub failure : List CpuResults → ℤ
failure [] = pos 0
failure (c ∷ cs) = if is_ready c then failure cs else c.cdev_add

-- Whether the calls that come before the CPUs succeed.
abbrev pub is_open : Results → Bool
is_open r =
    not (ltb_ℤ r.class_create (pos 0))
    && not (ltb_ℤ r.alloc_region (pos 0))
    && r.register_notifier ==ℤ pos 0

-- After a success, and after an exit that follows it.
abbrev pub HoldsAll : Results → List CpuResults → ℤ × Held → Type 0
HoldsAll r cs (status, h) =
    (status ≡ pos 0)
    × (h ≡ record {
      class = true;
      region = some r.minor;
      notifier = true;
      major = r.major;
      cpus = map ready cs;
    })
    × (exit cs h ≡ record {
      class = false;
      region =
          if r.major == 0
          then some r.minor
          else if last_cpu 0 cs == r.minor
          then none
          else some r.minor;
      notifier = false;
      major = r.major;
      cpus = map (λ c. returned c.policy) cs;
    })

-- After a failure: of the class or the region, of the notifier, or of a CPU.
abbrev pub IsUndone : Results → List CpuResults → ℤ × Held → Type 0
IsUndone r cs (status, h) =
    (h.class ≡ false)
    × (h.notifier ≡ false)
    × (((is_open r ≡ false)
          × (h.region ≡ none)
          × (h.cpus ≡ map (λ _. untouched) cs)
          × ((status ≡ r.class_create) ⊎ (status ≡ r.alloc_region)))
        ⊎ ((is_open r ≡ false)
            × (status ≡ r.register_notifier)
            × (h.region ≡ some r.minor)
            × (h.cpus ≡ map (λ _. untouched) cs))
        ⊎ ((is_open r ≡ true)
            × (status ≡ failure cs)
            × (h.region ≡ (if 0 == r.minor then none else some r.minor))
            × (h.cpus ≡ after_failure cs)))

-- What holds after the initialisation with the status.
abbrev pub IsSettled : Results → List CpuResults → ℤ × Held → Type 0
IsSettled r cs out =
    (((is_open r && are_ready cs) ≡ true) × HoldsAll r cs out)
    ⊎ (((is_open r && are_ready cs) ≡ false) × IsUndone r cs out)
