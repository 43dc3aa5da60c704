-- ===== src/Qos/Devfreq/Lifetime.antt =====
-- `dev_freq_qos_drv_init`, which registers a device for each name of a list, and
-- `dev_freq_qos_drv_exit`. The results of the kernel's calls are arguments; `dev_minor` only counts.
use code_snippet.Prelude.{
  ℕ, ◌+◌, ◌-◌, Bool, true, false, not, Option, none, some, List, [], ◌∷◌, ℤ, pos, ltb_ℤ, ◌==ℤ◌, leb,
  ◌==◌, if◌then◌else◌,
}
use code_snippet.Prelude.Strings.{Str, fields}
use code_snippet.Qos.Errors.{enoent, enomem, enodev, enodata}

abbrev pub nr_devfreqs : ℕ
nr_devfreqs = 10

-- What the kernel gives for a name of a compatible device.
pub record Found : Type 0 where
  pub node : Bool
  pub devfreq : Bool
  pub kzalloc : Bool
  pub cdev_add : ℤ
  pub device_create : ℤ

-- `devices` are the minor numbers of the devices in the class, and `memory` counts the
-- allocated `devfreq_qos_dev_t`.
pub record Registry : Type 0 where
  pub dev_minor : ℕ
  pub devices : List ℕ
  pub memory : ℕ

-- The label `free_dev`: `dev_minor--`, and the memory is freed.
unfoldable pub free_dev : Registry → Registry
free_dev s = record s { dev_minor = s.dev_minor - 1; memory = s.memory - 1 }

-- `devfreq_qos_register_by_compatible`
unfoldable pub register : Found → Registry → ℤ × Registry
unfolding free_dev
register f s =
    if leb (nr_devfreqs - 1) s.dev_minor
    then (enodata, s)
    else if not f.node
    then (enoent, s)
    else if not f.devfreq
    then (enodev, s)
    else if not f.kzalloc
    then (enomem, s)
    else (let devno = s.dev_minor in
        let taken : Registry = record s { dev_minor = s.dev_minor + 1; memory = s.memory + 1 } in
        if not (f.cdev_add ==ℤ pos 0)
        then (f.cdev_add, free_dev taken)
        else if ltb_ℤ f.device_create (pos 0)
        then (f.device_create, free_dev taken)
        else (pos 0, record taken { devices = devno ∷ s.devices }))

-- The loop over the names; `find` is what the kernel gives for each.
unfoldable pub register_all : (find : Str → Found) → List Str → Registry → Registry
register_all find [] s = s
register_all find (name ∷ names) s = register_all find names (register (find name) s).1

-- `copy` is the copy of the names that `kstrdup` made.
pub record Held : Type 0 where
  pub class : Bool
  pub region : Option ℕ
  pub major : ℕ
  pub copy : Bool
  pub registry : Registry

abbrev pub is_semicolon : ℕ → Bool
is_semicolon c = c == 59

-- `minor` and `major` are the first device number of the region.
pub record Results : Type 0 where
  pub class_create : ℤ
  pub alloc_region : ℤ
  pub major : ℕ
  pub minor : ℕ
  pub kstrdup : Bool

-- `strsep` leaves NULL in `sep`, so that `kfree(sep)` frees nothing.
unfoldable pub init : Results → (find : Str → Found) → (compatibles : Str) → ℤ × Held
init r find compatibles =
    let nothing : Held = record {
      class = false;
      region = none;
      major = 0;
      copy = false;
      registry = record { dev_minor = r.minor; devices = []; memory = 0 };
    } in
    if ltb_ℤ r.class_create (pos 0)
    then (r.class_create, nothing)
    else if ltb_ℤ r.alloc_region (pos 0)
    then (r.alloc_region, nothing)
    else (let h : Held = record nothing { class = true; region = some r.minor; major = r.major } in
        let names = if r.kstrdup then fields is_semicolon compatibles else [] in
        (pos 0, record h { copy = r.kstrdup; registry = register_all find names h.registry }))

-- `devfreq_qos_destory` for every device of the class.
unfoldable pub destroy_all : List ℕ → Registry → Registry
destroy_all [] s = record s { devices = [] }
destroy_all (d ∷ ds) s = destroy_all ds (record s { dev_minor = s.dev_minor - 1; devices = ds })

-- `dev_freq_qos_drv_exit`: the region from minor number 0 is given back, which is that of the
-- module if its own begins there.
unfoldable pub exit : Held → Held
exit h =
    let registry = destroy_all h.registry.devices h.registry in
    record h {
      class = false;
      region =
          if h.major == 0
          then h.region
          else elim h.region [ none ↦ none | some minor ↦ if minor == 0 then none else some minor ];
      registry = registry;
    }
