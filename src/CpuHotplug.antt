-- ===== src/CpuHotplug.antt =====
-- kernel_module/qos/cpuhp-qos.c: a module that keeps the number of online CPUs between two bounds
-- that user space writes to a device. The kernel's hotplug calls run the module's callbacks; which
-- of them the kernel accepts is an argument.
pub mod Counting
pub mod Control
pub mod Device
pub mod Lifetime
mod Tests
use code_snippet.Prelude.{
  ℕ, zero, suc, ◌+◌, ◌-◌, ◌%◌, ◌^◌, Bool, true, false, ◌&&◌, ◌||◌, Option, none, some, List, ltb,
  if◌then◌else◌,
}
use code_snippet.Prelude.Arrays.{get_or, set}

-- `struct cpuhp_status`, with `woken` counting the calls of `wake_up_process` on `hp_thread`, and
-- the kernel's record of which CPU is online.
pub record Status : Type 0 where
  pub min : ℕ
  pub max : ℕ
  pub online_cpus : ℕ
  pub woken : ℕ
  pub cpus : List Bool

abbrev pub uint_mod : ℕ
uint_mod = 2 ^ 32

unfoldable pub need_adjust : Status → Bool
need_adjust s = ltb s.online_cpus s.min || ltb s.max s.online_cpus

unfoldable pub wake_up : Status → Status
wake_up s = record s { woken = s.woken + 1 }

-- The callbacks `cpufreq_hp_offline` and `cpufreq_hp_online`.
unfoldable pub hp_offline : Status → Status
unfolding wake_up need_adjust
hp_offline s =
    let t = record s { online_cpus = (s.online_cpus + uint_mod - 1) % uint_mod } in
    if need_adjust t then wake_up t else t

unfoldable pub hp_online : Status → Status
unfolding wake_up need_adjust
hp_online s =
    let t = record s { online_cpus = (s.online_cpus + 1) % uint_mod } in
    if need_adjust t then wake_up t else t

-- `allowed cpu` says whether the kernel can take this CPU on and off line. A call for a CPU that is
-- already there, or does not exist, changes nothing.
module _ (allowed : ℕ → Bool) where
  -- `core_ctl_offline_core`
  unfoldable pub offline_core : ℕ → Status → Status
  unfolding hp_offline
  offline_core cpu s =
      if get_or s.cpus cpu false && allowed cpu
      then hp_offline (record s { cpus = set s.cpus cpu false })
      else s

  -- `core_ctl_online_core`
  unfoldable pub online_core : ℕ → Status → Status
  unfolding hp_online
  online_core cpu s =
      if get_or s.cpus cpu true
      then s
      else if allowed cpu
      then hp_online (record s { cpus = set s.cpus cpu true })
      else s

  unfoldable pub do_core_ctl : Status → Status
  unfolding offline_core online_core
  do_core_ctl s =
      if ltb s.max s.online_cpus
      then offline_core (s.online_cpus - 1) s
      else if ltb s.online_cpus s.min
      then online_core s.online_cpus s
      else s

  -- The loop of `try_core_ctl` up to where it goes to sleep, on fuel: `none` while it still runs.
  unfoldable pub run_until_idle : ℕ → Status → Option Status
  unfolding need_adjust do_core_ctl
  run_until_idle zero s = none
  run_until_idle (suc fuel) s =
      let rest = run_until_idle fuel (do_core_ctl s) in if need_adjust s then rest else some s
