-- ===== src/Qos/Cpufreq/Lifetime.antt =====
-- `cpu_freq_qos_drv_init` and `cpu_freq_qos_drv_exit`: what the module holds of the kernel, for
-- itself and for each present CPU. The results of the kernel's calls are arguments.

use code_snippet.Prelude.{
  ℕ, ◌+◌, Bool, true, false, not, Option, none, some, List, [], ◌∷◌, map, ℤ, pos, ltb_ℤ, ◌==ℤ◌,
  ◌==◌, if◌then◌else◌,
}

-- For a present CPU: its number, whether `cpufreq_cpu_get` gives a policy and not NULL, what
-- `cdev_add` and `device_create` return, and whether the link of `add_cpu_dev_symlink` comes about.
pub record CpuResults : Type 0 where
  pub cpu : ℕ
  pub policy : Bool
  pub cdev_add : ℤ
  pub device_create : ℤ
  pub symlink : Bool

-- `minor` and `major` are the first device number of the region.
pub record Results : Type 0 where
  pub class_create : ℤ
  pub alloc_region : ℤ
  pub major : ℕ
  pub minor : ℕ
  pub register_notifier : ℤ

-- `policy` is whether the pointer to a policy is other than NULL, with the reference that
-- `cpufreq_cpu_get` has taken. `null_puts` counts the calls of `cpufreq_cpu_put` with NULL.
pub record Cpu : Type 0 where
  pub policy : Bool
  pub null_puts : ℕ
  pub cdev : Bool
  pub device : Bool
  pub symlink : Bool

-- `region` is the first minor number of the region that is held.
pub record Held : Type 0 where
  pub class : Bool
  pub region : Option ℕ
  pub notifier : Bool
  pub major : ℕ
  pub cpus : List Cpu

abbrev pub untouched : Cpu
untouched = record { policy = false; null_puts = 0; cdev = false; device = false; symlink = false }

-- The loop of the initialisation: the status of the first failure, and the CPUs. A failed
-- `device_create` gives 0, since its pointer is cleared before the error is read from it.
unfoldable pub setup : List CpuResults → Option ℤ × List Cpu
setup [] = (none, [])
setup (c ∷ cs) =
    let rest = setup cs in
    let got : Cpu = record untouched { policy = c.policy } in
    if not (c.cdev_add ==ℤ pos 0)
    then (some c.cdev_add, got ∷ map (λ _. untouched) cs)
    else if ltb_ℤ c.device_create (pos 0)
    then (some (pos 0), record got { cdev = true } ∷ map (λ _. untouched) cs)
    else (rest.0, record got { cdev = true; device = true; symlink = c.symlink } ∷ rest.1)

-- The body of the loops at the label FAIL and in the exit.
unfoldable pub teardown : Cpu → Cpu
teardown c = record {
  policy = false;
  null_puts = (if c.policy then c.null_puts else c.null_puts + 1);
  cdev = false;
  device = false;
  symlink = false;
}

-- `unregister_chrdev_region` of a region from `minor`: another region than the one that is held is
-- not given back.
unfoldable pub release : ℕ → Option ℕ → Option ℕ
release minor none = none
release minor (some held) = if minor == held then none else some held

unfoldable pub init : Results → List CpuResults → ℤ × Held
unfolding release
init r cs =
    let nothing : Held = record {
      class = false;
      region = none;
      notifier = false;
      major = 0;
      cpus = map (λ _. untouched) cs;
    } in
    if ltb_ℤ r.class_create (pos 0)
    then (r.class_create, nothing)
    else if ltb_ℤ r.alloc_region (pos 0)
    then (r.alloc_region, nothing)
    else (let h : Held = record nothing { region = some r.minor; major = r.major } in
        if not (r.register_notifier ==ℤ pos 0)
        then (r.register_notifier, h)
        else (let (failed, cpus) = setup cs in
            elim failed [
              | none ↦ (pos 0, record h { class = true; notifier = true; cpus = cpus })
              | some status ↦
                  (status, record h { region = release 0 h.region; cpus = map teardown cpus })
            ]))

-- The number of the last present CPU, which the loop of the exit leaves in `devno`.
abbrev pub last_cpu : ℕ → List CpuResults → ℕ
last_cpu n [] = n
last_cpu n (c ∷ cs) = last_cpu c.cpu cs

unfoldable pub exit : List CpuResults → Held → Held
unfolding release
exit cs h = record h {
  class = false;
  region = if h.major == 0 then h.region else release (last_cpu 0 cs) h.region;
  notifier = false;
  cpus = map teardown h.cpus;
}
