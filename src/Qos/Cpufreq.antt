-- ===== src/Qos/Cpufreq.antt =====
-- kernel_module/qos/cpufreq-qos.c: the calls on an open device, and the notifier that follows the
-- policies. Integers that only move are unbounded.
pub mod Balance
pub mod Lifetime
pub mod Calls
use code_snippet.Prelude.{
  ℕ, ◌+◌, Bool, true, false, not, Option, none, some, List, [], ◌∷◌, ℤ, pos, ltb_ℤ, ltb, ◌==◌,
  if◌then◌else◌,
}
use code_snippet.Qos.Errors.{enoent, enomem, efault, einval, enobufs}
use code_snippet.Qos.Api.{Which, lower, upper, QosApi}

-- What `cpu_freq_qos_dev_t` keeps for the calls: a policy is its number.
pub record Device : Type 0 where
  pub policy : Option ℕ
  pub min : ℤ
  pub max : ℤ

module _ (api : QosApi) where
  open api use {State, add, update, remove, target, refresh, default}

  -- The status, whether the handle stays allocated, and the constraints. An error after the
  -- allocation returns as it is.
  unfoldable pub open_device : (allocated : Bool) → State → ℤ × Bool × State
  open_device false q = (enomem, false, q)
  open_device true q =
      let (ret, q₁) = add lower (default lower) q in
      if ltb_ℤ ret (pos 0)
      then (ret, true, q₁)
      else (let (ret', q₂) = add upper (default upper) q₁ in
          if ltb_ℤ ret' (pos 0) then (ret', true, q₂) else (pos 0, true, q₂))

  unfoldable pub close_device : State → State
  close_device q = remove upper (remove lower q)

  -- The status, and the words that reached user space.
  unfoldable pub read_device : (fault₀ fault₁ : Bool) → (count ppos : ℕ) → State → ℤ × List ℤ
  read_device fault₀ fault₁ count ppos q =
      if ltb count 8
      then (enobufs, [])
      else if not (ppos == 0)
      then (pos 0, [])
      else if fault₀
      then (efault, [])
      else if fault₁
      then (efault, target lower q ∷ [])
      else (pos 8, target lower q ∷ target upper q ∷ [])

  -- The part of `cpu_freq_qos_write` under the lock of the policy, and the status.
  unfoldable pub update_bounds : ℤ → ℤ → Device → State → ℤ × Device × State
  update_bounds min max d q =
      let (ret, q₁) = update lower min q in
      let (ret', q₂) = update upper max q₁ in
      let writen = (if ltb_ℤ ret (pos 0) then 0 else 4) + (if ltb_ℤ ret' (pos 0) then 0 else 4) in
      (if writen == 8 then pos 8 else einval, d, refresh q₂)

  -- `min` and `max` are the words in the buffer of user space.
  unfoldable pub write_device :
      (fault₀ fault₁ : Bool)
      → (count ppos : ℕ) → (min max : ℤ) → Device
      → State
      → ℤ × Device × State
  write_device fault₀ fault₁ count ppos min max d q =
      if not (ppos == 0) then (enobufs, d, q) else elim d.policy [
        | none ↦ (enoent, d, q)
        | some policy ↦
            if not (count == 8)
            then (einval, d, q)
            else if fault₀
            then (efault, d, q)
            else if fault₁
            then (efault, d, q)
            else update_bounds min max (record d { min = min; max = max }) q
      ]

-- The events of a policy that the notifier tells apart.
pub data Event : Type 0 where
  create_policy remove_policy other_event : Event

-- `perf_qos_adjust_notify` over the CPUs of the policy; the state is the policy of each CPU.
unfoldable pub notify : Event → ℕ → List ℕ → (ℕ → Option ℕ) → ℕ → Option ℕ
notify event policy [] policies = policies
notify create_policy policy (cpu ∷ cpus) policies =
    notify create_policy policy cpus (λ c. if c == cpu then some policy else policies c)
notify remove_policy policy (cpu ∷ cpus) policies =
    notify remove_policy policy cpus (λ c. if c == cpu then none else policies c)
notify other_event policy (cpu ∷ cpus) policies = notify other_event policy cpus policies
