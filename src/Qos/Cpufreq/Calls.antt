-- ===== src/Qos/Cpufreq/Calls.antt =====
-- The calls on an open device: what a status says of the bounds and of the requests.
use code_snippet.Prelude.{
  ℕ, ◌+◌, ◌≡◌, ◌⊎◌, inl, inr, Bool-cases, Bool, true, false, Option, none, some, List, [], ◌∷◌, ℤ,
  pos, ◌<ℤ◌, ltb_ℤ, ◌==◌, refl, ap, ◌∙◌, if◌then◌else◌, arith,
}
use code_snippet.Qos.Errors.{einval}
use code_snippet.Qos.Api.{lower, upper, QosApi}
use code_snippet.Qos.Cpufreq.{
  Device, open_device, close_device, update_bounds, write_device, Event, create_policy,
  remove_policy, other_event, notify,
}

module _ (api : QosApi) where
  open api use {State, add, update, remove, requests, refresh, default, add_ok, remove_one}

  open_adds :
      (q : State)
      → (open_device api true q).0 ≡ pos 0
      → (ltb_ℤ (add lower (default lower) q).0 (pos 0) ≡ false)
        × (ltb_ℤ (add upper (default upper) (add lower (default lower) q).1).0 (pos 0) ≡ false)
  unfolding open_device
  open_adds q h = ground arith

  -- An open that returns 0 adds a request for each of the two bounds, and a close after it takes
  -- both back.
  pub open-close :
      (q : State)
      → (open_device api true q).0 ≡ pos 0
      → let q' = (open_device api true q).2 in
        (requests lower q' ≡ requests lower q + 1)
        × (requests upper q' ≡ requests upper q + 1)
        × (requests lower (close_device api q') ≡ requests lower q)
        × (requests upper (close_device api q') ≡ requests upper q)
  unfolding open_device close_device
  open-close q h =
      let (a, b) = open_adds q h in
      let q₁ = (add lower (default lower) q).1 in
      let q₂ = (add upper (default upper) q₁).1 in
      let (low₁, up₁) = add_ok lower (default lower) q a in
      let (up₂, low₂) = add_ok upper (default upper) q₁ b in
      let low = low₂ ∙ low₁ in
      let up = up₂ ∙ ap (λ n. n + 1) up₁ in
      let (low₃, up₃) = remove_one lower q₂ (requests lower q) low in
      let (up₄, low₄) = remove_one upper (remove lower q₂) (requests upper q) (up₃ ∙ up) in
      rw (a, b) (low, up, low₄ ∙ low₃, up₄)

  -- When the second request is refused, the open fails with that status: the handle stays
  -- allocated, and the first request in force.
  pub open-refused :
      (q : State)
      → let q₁ = (add lower (default lower) q).1 in
        ltb_ℤ (add lower (default lower) q).0 (pos 0) ≡ false
        → ltb_ℤ (add upper (default upper) q₁).0 (pos 0) ≡ true
        → (open_device api true q
            ≡ ((add upper (default upper) q₁).0, true, (add upper (default upper) q₁).1))
          × (requests lower q₁ ≡ requests lower q + 1)
  unfolding open_device
  open-refused q a b = (rw (a, b) refl, (add_ok lower (default lower) q a).0)

  -- Either both updates of the requests were tried, with the bounds in the device, and the status
  -- is 8 if both went through; or nothing changes, with a negative status.
  abbrev pub IsWritten : ℤ → ℤ → Device → State → ℤ × Device × State → Type 0
  IsWritten min max d q (status, d', q') =
      let (ret, q₁) = update lower min q in
      let (ret', q₂) = update upper max q₁ in
      ((d' ≡ record d { min = min; max = max })
        × (q' ≡ refresh q₂)
        × (((status ≡ pos 8) × (ltb_ℤ ret (pos 0) ≡ false) × (ltb_ℤ ret' (pos 0) ≡ false))
            ⊎ ((status ≡ einval) × ((ltb_ℤ ret (pos 0) ≡ true) ⊎ (ltb_ℤ ret' (pos 0) ≡ true)))))
      ⊎ ((status <ℤ pos 0) × (d' ≡ d) × (q' ≡ q))

  -- What a write does, with the bounds in the buffer: it returns 8 when both updates go through,
  -- and a negative number when it leaves the device and the constraints as they are, or when at
  -- least one update is refused. Then the device has the bounds all the same.
  pub write-cases :
      (fault₀ fault₁ : Bool) (count ppos : ℕ) (min max : ℤ) (d : Device) (q : State)
      → IsWritten min max d q (write_device api fault₀ fault₁ count ppos min max d q)
  unfolding write_device update_bounds
  write-cases fault₀ fault₁ count ppos min max d q = ground arith

abbrev pub has : ℕ → List ℕ → Bool
has c [] = false
has c (x ∷ xs) = if c == x then true else has c xs

notify-create :
    (policy : ℕ) (cpus : List ℕ) (policies : ℕ → Option ℕ) (c : ℕ)
    → (has c cpus ≡ true) ⊎ (policies c ≡ some policy)
    → notify create_policy policy cpus policies c ≡ some policy
unfolding notify
notify-create policy [] policies c (inl h) = cc
notify-create policy [] policies c (inr h) = h
notify-create policy (x ∷ xs) policies c h =
    notify-create policy xs (λ y. if y == x then some policy else policies y) c (ground arith)

notify-remove :
    (policy : ℕ) (cpus : List ℕ) (policies : ℕ → Option ℕ) (c : ℕ)
    → (has c cpus ≡ true) ⊎ (policies c ≡ none)
    → notify remove_policy policy cpus policies c ≡ none
unfolding notify
notify-remove policy [] policies c (inl h) = cc
notify-remove policy [] policies c (inr h) = h
notify-remove policy (x ∷ xs) policies c h =
    notify-remove policy xs (λ y. if y == x then none else policies y) c (ground arith)

notify-other :
    (policy : ℕ) (cpus : List ℕ) (policies : ℕ → Option ℕ) (c : ℕ)
    → notify other_event policy cpus policies c ≡ policies c
unfolding notify
notify-other policy [] policies c = refl
notify-other policy (x ∷ xs) policies c = notify-other policy xs policies c

notify-unrelated :
    (e : Event) (policy : ℕ) (cpus : List ℕ) (policies : ℕ → Option ℕ) (c : ℕ)
    → has c cpus ≡ false
    → notify e policy cpus policies c ≡ policies c
unfolding notify
notify-unrelated e policy [] policies c h = refl
notify-unrelated create_policy policy (x ∷ xs) policies c h =
    notify-unrelated create_policy policy xs _ c (ground (arith, h)) ∙ ground (arith, h)
notify-unrelated remove_policy policy (x ∷ xs) policies c h =
    notify-unrelated remove_policy policy xs _ c (ground (arith, h)) ∙ ground (arith, h)
notify-unrelated other_event policy (x ∷ xs) policies c h = notify-other policy xs policies c

-- The policy of each CPU after an event is that of the event, or none, for the CPUs that the
-- policy is about, and as it was for the others and for other events.
pub notify-related :
    (policy : ℕ) (cpus : List ℕ) (policies : ℕ → Option ℕ) (c : ℕ)
    → ((has c cpus ≡ true)
        × (notify create_policy policy cpus policies c ≡ some policy)
        × (notify remove_policy policy cpus policies c ≡ none)
        × (notify other_event policy cpus policies c ≡ policies c))
      ⊎ ((has c cpus ≡ false) × ((e : Event) → notify e policy cpus policies c ≡ policies c))
notify-related policy cpus policies c = elim (Bool-cases (has c cpus)) [
  | inl h ↦ inl (
    h,
    notify-create policy cpus policies c (inl h),
    notify-remove policy cpus policies c (inl h),
    notify-other policy cpus policies c,
  )
  | inr h ↦ inr (h, λ e. notify-unrelated e policy cpus policies c h)
]
