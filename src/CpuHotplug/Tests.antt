-- ===== src/CpuHotplug/Tests.antt =====
-- Four CPUs of which two are on line, under several bounds.
use code_snippet.Prelude.{
  ℕ, suc, ◌+◌, ◌-◌, ◌<◌, ◌≡◌, refl, Bool, true, false, some, [], ◌∷◌, ℤ, pos, arith,
}
use Prim.Native.Nat
use code_snippet.CpuHotplug.{Status, do_core_ctl, run_until_idle}
use code_snippet.CpuHotplug.Counting.{
  IsCounted, count, Reach, here, next, control, write, Reach-IsCounted,
}
use code_snippet.CpuHotplug.Control.{IsLowest, Settles, run_until_idle-Settles}
use code_snippet.CpuHotplug.Lifetime.{Results}

abbrev all : ℕ → Bool
all cpu = true

abbrev status : ℕ → ℕ → Status
status lo hi = record {
  min = lo;
  max = hi;
  online_cpus = 2;
  woken = 0;
  cpus = true ∷ true ∷ false ∷ false ∷ [];
}

status-IsLowest : (lo hi : ℕ) → IsLowest 2 2 (status lo hi)
status-IsLowest lo hi = record { counted = refl; prefix = refl; small = omega arith }

run_runs :
    run_until_idle all 5 (status 3 4)
    ≡ some (record (status 3 4) { online_cpus = 3; cpus = true ∷ true ∷ true ∷ false ∷ [] })
unfolding run_until_idle
run_runs = refl

status-IsCounted : IsCounted (status 0 8)
unfolding count
status-IsCounted = omega arith

abbrev path : Reach all (status 0 8) (do_core_ctl all (status 0 1))
path = next (next here (write 0 1 0)) control

Reach-IsCounted_example : IsCounted (do_core_ctl all (status 0 1))
Reach-IsCounted_example = Reach-IsCounted all status-IsCounted path

all_free : (cpu : ℕ) → 0 < cpu → all cpu ≡ true
all_free cpu h = refl

run_until_idle-Settles_example :
    let goal = Nat.max 3 (Nat.min 2 4) in Settles all (status 3 4) (suc (2 + 2)) goal (2 + 2 - goal)
run_until_idle-Settles_example =
    run_until_idle-Settles all all_free 2 2 (status 3 4) (status-IsLowest 3 4) (omega arith)
      (omega arith) (omega arith) (omega arith)

abbrev results : ℤ → Results
results device = record {
  class_create = pos 0;
  setup_state = pos 190;
  kthread_run = pos 0;
  alloc_region = pos 0;
  kzalloc = true;
  cdev_add = pos 0;
  device_create = device;
}
