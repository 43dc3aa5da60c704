-- ===== src/Qos/Devfreq/Numbers.antt =====
-- The minor numbers of the devices: in order, without a gap, and inside the region.
use code_snippet.Prelude.{
  ℕ, ◌+◌, ◌-◌, ◌≡◌, ◌≤◌, refl, Bool-cases, inl, inr, ltb_ℤ, false, List, [], ◌∷◌, pos, length,
  arith, if◌then◌else◌,
}
use code_snippet.Prelude.Strings.{Str, fields}
use code_snippet.Qos.Devfreq.Lifetime.{
  Found, Registry, free_dev, register, register_all, Results, is_semicolon, init, destroy_all, exit,
}

-- From `first` up to `dev_minor`, the last one first.
abbrev pub AreConsecutive : ℕ → ℕ → List ℕ → Type 0
AreConsecutive first next [] = next ≡ first
AreConsecutive first next (d ∷ ds) = (next ≡ d + 1) × AreConsecutive first d ds

-- What holds of the registry of a module whose region begins at `first`.
pub record IsNumbered (first : ℕ) (s : Registry) : Type 0 where
  pub consecutive : AreConsecutive first s.dev_minor s.devices
  pub owned : s.memory ≡ length s.devices
  pub bounded : s.dev_minor ≤ first + 9

-- The label takes back the number and the memory.
undone :
    (s : Registry) → free_dev (record s { dev_minor = s.dev_minor + 1; memory = s.memory + 1 }) ≡ s
unfolding free_dev
undone s = ground arith

register-IsNumbered :
    (first : ℕ) (f : Found) (s : Registry) → IsNumbered first s → IsNumbered first (register f s).1
unfolding register
register-IsNumbered first f s v = ground (arith, v, undone s)

register_all-IsNumbered :
    (first : ℕ) (find : Str → Found) (names : List Str) (s : Registry)
    → IsNumbered first s
    → IsNumbered first (register_all find names s)
unfolding register_all
register_all-IsNumbered first find [] s v = v
register_all-IsNumbered first find (name ∷ names) s v =
    register_all-IsNumbered first find names _ (register-IsNumbered first (find name) s v)

-- After any initialisation the minor numbers of the devices follow one another from the first of
-- the region, and at most nine are taken, so that the ten of the region hold them; each device has its
-- memory.
pub init-IsNumbered :
    (r : Results) (find : Str → Found) (compatibles : Str)
    → IsNumbered r.minor (init r find compatibles).1.registry
unfolding init
init-IsNumbered r find compatibles =
    let start : Registry = record { dev_minor = r.minor; devices = []; memory = 0 } in
    let names = if r.kstrdup then fields is_semicolon compatibles else [] in
    let fresh : IsNumbered r.minor start = record {
      consecutive = refl;
      owned = refl;
      bounded = omega arith;
    } in
    let numbered = register_all-IsNumbered r.minor find names start fresh in
    elim (Bool-cases (ltb_ℤ r.class_create (pos 0))) [
      | inl bad ↦ rw bad fresh
      | inr good ↦ elim (Bool-cases (ltb_ℤ r.alloc_region (pos 0))) [
        | inl bad ↦ rw (good, bad) fresh
        | inr fine ↦ rw (good, fine) numbered
      ]
    ]

destroy_all-eq :
    (first : ℕ) (ds : List ℕ) (s : Registry)
    → AreConsecutive first s.dev_minor ds
    → destroy_all ds s ≡ record { dev_minor = first; devices = []; memory = s.memory }
unfolding destroy_all
destroy_all-eq first [] s c = ground arith
destroy_all-eq first (d ∷ ds) s c =
    destroy_all-eq first ds (record s { dev_minor = s.dev_minor - 1; devices = ds })
      (let e : s.dev_minor - 1 ≡ d = omega (arith, c.0) in rw e c.1)

-- The exit after any initialisation destroys every device and counts `dev_minor` back, but keeps
-- the memory of each device, and the copy of the names.
pub exit-leaks :
    (r : Results) (find : Str → Found) (compatibles : Str)
    → let h = (init r find compatibles).1 in
      ((exit h).registry
        ≡ record { dev_minor = r.minor; devices = []; memory = length h.registry.devices })
      × ((exit h).copy ≡ h.copy)
      × ((exit h).class ≡ false)
unfolding exit
exit-leaks r find compatibles =
    let h = (init r find compatibles).1 in
    let v = init-IsNumbered r find compatibles in
    (rw v.owned at (destroy_all-eq r.minor h.registry.devices h.registry v.consecutive), refl, refl)
