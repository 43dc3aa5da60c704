-- ===== src/Qos/Devfreq.antt =====
-- kernel_module/qos/devfreq-qos.c: the calls on an open device. The device keeps its bounds in
-- kHz, user space has them in Hz.
pub mod Numbers
pub mod Lifetime
pub mod Calls
use code_snippet.Prelude.{
  ℕ, ◌+◌, Bool, true, false, not, Option, none, some, List, [], ◌∷◌, ℤ, pos, ltb_ℤ, ◌*ℤ◌, checked,
  ltb, ◌==◌, if◌then◌else◌, ◌>>=◌,
}
use code_snippet.Prelude.Division.{int_div}
use code_snippet.Qos.Errors.{enomem, efault, einval, enobufs}
use code_snippet.Qos.Api.{Which, lower, upper, QosApi}

abbrev pub hz_per_khz : ℤ
hz_per_khz = pos 1000

pub record Device : Type 0 where
  pub min : ℤ
  pub max : ℤ

module _ (api : QosApi) where
  open api use {State, add, update, remove, refresh, default}

  -- The status, whether the handle stays allocated, and the constraints.
  unfoldable pub open_device : (allocated : Bool) → State → ℤ × Bool × State
  open_device false q = (enomem, false, q)
  open_device true q =
      let (ret, q₁) = add lower (default lower) q in
      if ltb_ℤ ret (pos 0)
      then (ret, true, q₁)
      else (let (ret', q₂) = add upper (default upper) q₁ in
          if ltb_ℤ ret' (pos 0) then (ret', true, q₂) else (pos 0, true, q₂))

  unfoldable pub close_device : State → State
  close_device q = remove upper (remove lower q)

  -- The part of `dev_freq_qos_write` after the copies. `get_dev_status` is a callback of the
  -- driver, which the code calls without a look whether there is one.
  unfoldable pub update_bounds :
      (get_dev_status : Option (State → State)) → Device → State → Option (ℤ × Device × State)
  update_bounds get_dev_status d q =
      let (ret, q₁) = update lower d.min q in
      let (ret', q₂) = update upper d.max q₁ in
      let writen = (if ltb_ℤ ret (pos 0) then 0 else 4) + (if ltb_ℤ ret' (pos 0) then 0 else 4) in
      if not (writen == 8) then some (einval, d, q₂) else elim get_dev_status [
        | none ↦ none
        | some callback ↦ some (pos 8, d, refresh (callback q₂))
      ]

  unfoldable pub write_device :
      (get_dev_status : Option (State → State))
      → (fault₀ fault₁ : Bool) → (count ppos : ℕ) → (min max : ℤ) → Device
      → State
      → Option (ℤ × Device × State)
  write_device get_dev_status fault₀ fault₁ count ppos min max d q =
      if not (ppos == 0)
      then some (enobufs, d, q)
      else if not (count == 8)
      then some (einval, d, q)
      else if fault₀
      then some (efault, d, q)
      else if fault₁
      then some (efault, d, q)
      else (int_div min hz_per_khz >>= λ min'. int_div max hz_per_khz >>= λ max'.
          update_bounds get_dev_status (record { min = min'; max = max' }) q)

-- The status, and the words that reached user space.
unfoldable pub read_device :
    (fault₀ fault₁ : Bool) → (count ppos : ℕ) → Device → Option (ℤ × List ℤ)
read_device fault₀ fault₁ count ppos d =
    if ltb count 8
    then some (enobufs, [])
    else if not (ppos == 0)
    then some (pos 0, [])
    else (checked (d.min *ℤ hz_per_khz) >>= λ min. checked (d.max *ℤ hz_per_khz) >>= λ max. some (
        if fault₀
        then (efault, [])
        else if fault₁
        then (efault, min ∷ [])
        else (pos 8, min ∷ max ∷ [])))
