-- ===== src/SmcHelper/Lifetime.antt =====
-- `smc_helper_drv_init` and `smc_helper_drv_exit`: what the module holds of the kernel. The results
-- of the kernel's calls are arguments.
use code_snippet.Prelude.{
  ℕ, Bool, true, false, not, Option, none, some, ℤ, pos, ltb_ℤ, ◌==ℤ◌, ◌==◌, if◌then◌else◌,
}
use code_snippet.Qos.Errors.{enomem}

-- `minor` is the minor number of the region.
pub record Results : Type 0 where
  pub class_create : ℤ
  pub alloc_region : ℤ
  pub minor : ℕ
  pub kzalloc : Bool
  pub cdev_add : ℤ
  pub device_create : ℤ

-- `region` is the minor number that is held; `memory` the `smc_helper_dev_t`.
pub record Held : Type 0 where
  pub class : Bool
  pub region : Option ℕ
  pub memory : Bool
  pub cdev : Bool
  pub device : Bool

abbrev pub nothing : Held
nothing = record { class = false; region = none; memory = false; cdev = false; device = false }

-- A device that cannot be created is not fatal.
unfoldable pub init : Results → ℤ × Held
init r =
    let classed : Held = record nothing { class = true } in
    if ltb_ℤ r.class_create (pos 0)
    then (r.class_create, nothing)
    else if ltb_ℤ r.alloc_region (pos 0)
    then (r.alloc_region, classed)
    else if not r.kzalloc
    then (enomem, classed)
    else if not (r.cdev_add ==ℤ pos 0)
    then (r.cdev_add, classed)
    else (
      pos 0,
      record {
        class = true;
        region = some r.minor;
        memory = true;
        cdev = true;
        device = not (ltb_ℤ r.device_create (pos 0));
      },
    )

-- `smc_helper_destory`
unfoldable pub destroy : Held → Held
destroy h = record h { device = false; cdev = false; memory = false }

-- The class has the device, if it was created; the number that is given back is that of minor 0.
unfoldable pub exit : Held → Held
exit h =
    let h' = if h.device then destroy h else h in
    record h' {
      class = false;
      region = elim h'.region [
        | none ↦ none
        | some minor ↦ if minor == 0 then none else some minor
      ];
    }
