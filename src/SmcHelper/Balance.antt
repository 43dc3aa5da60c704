-- ===== src/SmcHelper/Balance.antt =====
-- What the initialisation and the exit give back.
use code_snippet.Prelude.{
  ℕ, ◌≡◌, ◌≢◌, ◌⊎◌, true, false, Option, none, some, ℤ, pos, ◌==◌, if◌then◌else◌, arith,
}
use code_snippet.SmcHelper.Lifetime.{Results, Held, nothing, init, destroy, exit}

abbrev pub kept_region : ℕ → Option ℕ
kept_region minor = if minor == 0 then none else some minor

-- What holds after the initialisation, and after an exit that follows a success.
abbrev pub IsBalanced : Results → ℤ × Held → Type 0
IsBalanced r (status, h) =
    ((status ≡ pos 0)
      × (h.region ≡ some r.minor)
      × (h.cdev ≡ true)
      × (((h.device ≡ true) × (exit h ≡ record nothing { region = kept_region r.minor }))
          ⊎ ((h.device ≡ false)
              × (exit h
                  ≡ record nothing { region = kept_region r.minor; memory = true; cdev = true }))))
    ⊎ ((status ≢ pos 0)
        × (((status ≡ r.class_create) × (h ≡ nothing)) ⊎ (h ≡ record nothing { class = true })))

-- Whatever the kernel's calls return, an initialisation that returns 0 holds the region and the
-- character device, and an exit after it gives all back, but: a region that does not begin at minor
-- number 0; and, when the device could not be created, the character device with its memory. One
-- that returns an error gives all back but the class, which stays unless it was what failed.
pub init-IsBalanced : (r : Results) → IsBalanced r (init r)
unfolding init exit destroy
init-IsBalanced r = ground arith
