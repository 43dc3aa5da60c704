-- ===== src/Qos/Devfreq/Calls.antt =====
-- The calls on an open device: the same requests as for a CPU, and bounds cut to whole kHz.
use code_snippet.Prelude.{
  ℕ, ◌+◌, ◌*◌, ◌/◌, ◌≡◌, ◌≤◌, ◌<◌, refl, ap, Bool, true, false, none, some, [], ◌∷◌, ℤ, pos, negsuc,
  pos_part, neg_part, sub_ℕ, ◌*ℤ◌, ltb_ℤ, in_int, checked, ltb, arith,
}
use code_snippet.Prelude.Division.{int_div, quotient, magnitude}
use code_snippet.Qos.Api.{lower, upper, QosApi}
use code_snippet.Qos.Cpufreq
use code_snippet.Qos.Devfreq.{
  Device, hz_per_khz, open_device, update_bounds, write_device, read_device,
}

-- A number of Hz cut to whole kHz, towards zero.
abbrev pub cut : ℤ → ℤ
cut (pos n) = pos (n / 1000 * 1000)
cut (negsuc n) = sub_ℕ 0 ((n + 1) / 1000 * 1000)

abbrev khz : ℤ → ℤ
khz (pos n) = pos (n / 1000)
khz (negsuc n) = sub_ℕ 0 ((n + 1) / 1000)

quotient-khz : (a : ℤ) → quotient a hz_per_khz ≡ khz a
unfolding quotient
quotient-khz (pos n) =
    let sign : ltb_ℤ (pos n) (pos 0) ≡ false = ground arith in
    let whole : sub_ℕ (magnitude (pos n) / 1000) 0 ≡ pos (n / 1000) = ground arith in rw sign whole
quotient-khz (negsuc n) =
    let sign : ltb_ℤ (negsuc n) (pos 0) ≡ true = ground arith in
    let size : magnitude (negsuc n) ≡ n + 1 = omega arith in
    rw sign (ap (λ m. sub_ℕ 0 (m / 1000)) size)

khz-in_int : (a : ℤ) → in_int a ≡ true → in_int (khz a) ≡ true
khz-in_int (pos n) h = ground arith
khz-in_int (negsuc n) h = ground arith

int_div-khz : (a : ℤ) → in_int a ≡ true → int_div a hz_per_khz ≡ some (khz a)
unfolding int_div
int_div-khz a h = rw (quotient-khz a, khz-in_int a h) refl

khz-cut : (a : ℤ) → in_int a ≡ true → checked (khz a *ℤ hz_per_khz) ≡ some (cut a)
unfolding ◌*ℤ◌
khz-cut (pos n) h = ground arith
khz-cut (negsuc n) h = ground arith

-- A cut number is nearer to zero by less than a kHz.
pub cut_bounds :
    (a : ℤ)
    → (pos_part (cut a) ≤ pos_part a)
      × (pos_part a < pos_part (cut a) + 1000)
      × (neg_part (cut a) ≤ neg_part a)
      × (neg_part a < neg_part (cut a) + 1000)
cut_bounds (pos n) = ground arith
cut_bounds (negsuc n) = ground arith

module _ (api : QosApi) where
  open api use {State, update, refresh, requests}

  open-Cpufreq : (a : Bool) (q : State) → open_device api a q ≡ Cpufreq.open_device api a q
  unfolding open_device Cpufreq.open_device
  open-Cpufreq true q = refl
  open-Cpufreq false q = refl

  -- A write of two bounds in Hz that the kernel accepts, to a driver with the callback, returns 8,
  -- and a read of at least 8 bytes without a fault then gives both bounds, each cut to whole kHz.
  -- No division and no product leaves the range of `int`.
  pub read-write_cut :
      (callback : State → State) (min max : ℤ) (size : ℕ) (d : Device) (q : State)
      → in_int min ≡ true
      → in_int max ≡ true
      → ltb size 8 ≡ false
      → let q₁ = (update lower (khz min) q).1 in
        ltb_ℤ (update lower (khz min) q).0 (pos 0) ≡ false
        → ltb_ℤ (update upper (khz max) q₁).0 (pos 0) ≡ false
        → (d' : Device) × (q' : State) × (write_device api
              (some callback)
              false
              false
              8
              0
              min
              max
              d
              q
            ≡ some (pos 8, d', q'))
          × (read_device false false size 0 d' ≡ some (pos 8, cut min ∷ cut max ∷ []))
  unfolding write_device update_bounds read_device
  read-write_cut callback min max size d q a b room low up =
      let q₁ = (update lower (khz min) q).1 in
      (
        record { min = khz min; max = khz max },
        refresh (callback (update upper (khz max) q₁).1),
        rw (int_div-khz min a, int_div-khz max b, low, up) refl,
        rw (room, khz-cut min a, khz-cut max b) refl,
      )

  -- A driver without the callback, which the source says there is: an accepted write calls through
  -- a null pointer.
  pub write-no_callback :
      (min max : ℤ) (d : Device) (q : State)
      → in_int min ≡ true
      → in_int max ≡ true
      → let q₁ = (update lower (khz min) q).1 in
        ltb_ℤ (update lower (khz min) q).0 (pos 0) ≡ false
        → ltb_ℤ (update upper (khz max) q₁).0 (pos 0) ≡ false
        → write_device api none false false 8 0 min max d q ≡ none
  unfolding write_device update_bounds
  write-no_callback min max d q a b low up = rw (int_div-khz min a, int_div-khz max b, low, up) refl
