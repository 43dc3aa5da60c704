-- ===== src/CharDrv.antt =====
-- kernel_module/char_drv/char_drv.c: initialisation and exit. The results of the kernel's calls are
-- arguments; a device number is its major number, since the minor number is always 0.
use code_snippet.Prelude.{
  ℕ, ◌≡◌, ◌⊎◌, inl, inr, refl, Bool-cases, Bool, true, false, Option, none, some, ℤ, pos, negsuc,
  ltb_ℤ, ◌==ℤ◌, ◌==◌, if◌then◌else◌, arith,
}

-- `major` is the number that `alloc_chrdev_region` gives.
pub record Results : Type 0 where
  pub register_region : ℤ
  pub alloc_region : ℤ
  pub major : ℕ
  pub kmalloc : Bool
  pub cdev_add : ℤ

-- `memory` says whether `chdrv_dev` is other than NULL.
pub record Held : Type 0 where
  pub chdrv_major : ℕ
  pub region : Option ℕ
  pub memory : Bool
  pub cdev : Bool

-- `unregister_chrdev_region`: another region than the one that is held is not given back.
unfoldable pub release : ℕ → Option ℕ → Option ℕ
release major none = none
release major (some held) = if major == held then none else some held

-- The first step: the status, and the region. The number of an allocation that failed is 0.
unfoldable pub get_region : Results → Held → ℤ × Held
get_region r h =
    if h.chdrv_major == 0
    then (if ltb_ℤ r.alloc_region (pos 0)
        then (r.alloc_region, record h { chdrv_major = 0 })
        else (r.alloc_region, record h { chdrv_major = r.major; region = some r.major }))
    else (if ltb_ℤ r.register_region (pos 0)
        then (r.register_region, h)
        else (r.register_region, record h { region = some h.chdrv_major }))

-- The second step, which a failed `cdev_add` does not end.
unfoldable pub add_device : Results → ℤ × Held → ℤ × Held
unfolding release
add_device r (ret, h) =
    if ltb_ℤ ret (pos 0)
    then (ret, h)
    else if r.kmalloc
    then (pos 0, record h { memory = true; cdev = r.cdev_add ==ℤ pos 0 })
    else (negsuc 11, record h { region = release h.chdrv_major h.region })

unfoldable pub init : Results → Held → ℤ × Held
unfolding get_region add_device
init r h = add_device r (get_region r h)

unfoldable pub exit : Held → Held
unfolding release
exit h =
    let h₁ : Held = (if h.memory then record h { memory = false; cdev = false } else h) in
    record h₁ { region = release h₁.chdrv_major h₁.region }

-- Nothing of the kernel.
abbrev pub IsFree : Held → Type 0
IsFree h = (h.region ≡ none) × (h.memory ≡ false) × (h.cdev ≡ false)

-- An error with nothing held, or the status 0 with everything but, where `cdev_add` failed, the
-- device; and what is held then is given back by the exit.
abbrev pub IsOutcome : Results → ℤ × Held → Type 0
IsOutcome r (status, h) =
    ((ltb_ℤ status (pos 0) ≡ true) × IsFree h)
    ⊎ ((status ≡ pos 0)
        × (h.region ≡ some h.chdrv_major)
        × (h.memory ≡ true)
        × (h.cdev ≡ (r.cdev_add ==ℤ pos 0))
        × IsFree (exit h))

-- What the first step leaves.
abbrev IsStarted : ℤ × Held → Type 0
IsStarted (ret, h) =
    (h.memory ≡ false)
    × (h.cdev ≡ false)
    × (((ltb_ℤ ret (pos 0) ≡ true) × (h.region ≡ none))
        ⊎ ((ltb_ℤ ret (pos 0) ≡ false) × (h.region ≡ some h.chdrv_major)))

get_region-IsStarted : (r : Results) (h : Held) → IsFree h → IsStarted (get_region r h)
unfolding get_region
get_region-IsStarted r h f = ground (arith, f)

release-same : (major : ℕ) → release major (some major) ≡ none
unfolding release
release-same major = ground arith

exit-IsFree : (h : Held) → h.region ≡ some h.chdrv_major → h.memory ≡ true → IsFree (exit h)
unfolding exit
exit-IsFree h region memory = rw (memory, exit) (rw region (release-same h.chdrv_major), refl, refl)

add_device-IsOutcome : (r : Results) (g : ℤ × Held) → IsStarted g → IsOutcome r (add_device r g)
unfolding add_device
add_device-IsOutcome r (ret, h) (m, c, inl (bad, free)) = rw bad (inl (bad, (free, m, c)))
add_device-IsOutcome r (ret, h) (m, c, inr (good, region)) = elim (Bool-cases r.kmalloc) [
  | inl granted ↦ rw (good, granted) (inr (refl, region, refl, refl, exit-IsFree _ region refl))
  | inr refused ↦ rw (good, refused) (inl (refl, (rw region (release-same h.chdrv_major), m, c)))
]

-- Whatever the calls return, an initialisation that starts with nothing either gives an error and
-- holds nothing, or it gives 0 and holds the region, the memory and, if `cdev_add` succeeded, the
-- device, and then the exit gives back everything.
pub init-IsOutcome : (r : Results) (h : Held) → IsFree h → IsOutcome r (init r h)
unfolding init
init-IsOutcome r h f = add_device-IsOutcome r (get_region r h) (get_region-IsStarted r h f)
