-- ===== src/Qos/Api.antt =====
-- What the two modules use of the kernel's requests for bounds on a frequency: freq_qos_* on the
-- constraints of a CPU's policy, dev_pm_qos_* on those of a device.
use code_snippet.Prelude.{ℕ, ◌+◌, ◌≡◌, false, ℤ, pos, ltb_ℤ}

-- The lower and the upper bound.
pub data Which : Type 0 where
  lower upper : Which

abbrev pub other : Which → Which
other lower = upper
other upper = lower

-- `requests` counts the requests in force; a call that adds one returns a negative number on an
-- error, and then adds none.
pub record QosApi : Type 1 where
  pub State : Type 0
  pub add : Which → ℤ → State → ℤ × State
  pub update : Which → ℤ → State → ℤ × State
  pub remove : Which → State → State
  pub target : Which → State → ℤ
  pub refresh : State → State
  pub requests : Which → State → ℕ
  pub default : Which → ℤ
  pub add_ok :
      (w : Which) (v : ℤ) (q : State)
      → ltb_ℤ (add w v q).0 (pos 0) ≡ false
      → (requests w (add w v q).1 ≡ requests w q + 1)
        × (requests (other w) (add w v q).1 ≡ requests (other w) q)
  pub remove_one :
      (w : Which) (q : State) (n : ℕ)
      → requests w q ≡ n + 1
      → (requests w (remove w q) ≡ n) × (requests (other w) (remove w q) ≡ requests (other w) q)
