-- ===== src/CpuHotplug/Lifetime.antt =====
-- `cpu_hp_drv_init` and `cpu_hp_drv_exit`: what the module holds of the kernel after its
-- initialisation, on every path, and after its exit. The results of the kernel's calls are
-- arguments.
use code_snippet.Prelude.{
  ◌≡◌, Bool, true, false, ℤ, pos, negsuc, ltb_ℤ, ◌==ℤ◌, ◌<ℤ◌, arith, ◌⊎◌, if◌then◌else◌,
}
use code_snippet.Stack.Lifo.{success}

-- What the calls return: a negative number is an error, or the error in an error pointer. `kzalloc`
-- returns memory or none, and `cdev_add` fails if it does not return 0.
pub record Results : Type 0 where
  pub class_create : ℤ
  pub setup_state : ℤ
  pub kthread_run : ℤ
  pub alloc_region : ℤ
  pub kzalloc : Bool
  pub cdev_add : ℤ
  pub device_create : ℤ

-- What the module holds.
pub record Held : Type 0 where
  pub class : Bool
  pub hotplug_state : Bool
  pub thread : Bool
  pub region : Bool
  pub memory : Bool
  pub cdev : Bool
  pub device : Bool

abbrev pub nothing : Held
nothing = record {
  class = false;
  hotplug_state = false;
  thread = false;
  region = false;
  memory = false;
  cdev = false;
  device = false;
}

abbrev pub enomem : ℤ
enomem = negsuc 11

abbrev pub enosys : ℤ
enosys = negsuc 37

-- The labels at the end of `cpu_hp_drv_init`, each of which falls through to the next.
unfoldable pub destroy_class : Held → Held
destroy_class h = record h { class = false }

unfoldable pub remove_state : Held → Held
remove_state h = destroy_class (record h { hotplug_state = false })

unfoldable pub free_region : Held → Held
free_region h = remove_state (record h { region = false })

unfoldable pub free_memory : Held → Held
free_memory h = free_region (record h { memory = false })

unfoldable pub remove_cdev : Held → Held
remove_cdev h = free_memory (record h { cdev = false })

-- After a failed `device_create` the code clears the pointer before it reads the error from it, so
-- that the status is 0.
unfoldable pub init : Results → ℤ × Held
unfolding destroy_class remove_state free_region free_memory remove_cdev
init r =
    if ltb_ℤ r.class_create (pos 0)
    then (r.class_create, nothing)
    else (let h1 = record nothing { class = true } in
        if ltb_ℤ r.setup_state (pos 0)
        then (enosys, destroy_class h1)
        else (let h2 = record h1 { hotplug_state = true } in
            if ltb_ℤ r.kthread_run (pos 0)
            then (r.kthread_run, remove_state h2)
            else (let h3 = record h2 { thread = true } in
                if ltb_ℤ r.alloc_region (pos 0)
                then (r.alloc_region, remove_state h3)
                else (let h4 = record h3 { region = true } in
                    if r.kzalloc
                    then (let h5 = record h4 { memory = true } in
                        if r.cdev_add ==ℤ pos 0
                        then (let h6 = record h5 { cdev = true } in
                            if ltb_ℤ r.device_create (pos 0)
                            then (pos 0, remove_cdev h6)
                            else (pos 0, record h6 { device = true }))
                        else (r.cdev_add, free_memory h5))
                    else (enomem, free_region h4)))))

-- `cpu_hp_drv_exit`
unfoldable pub exit : Held → Held
exit h = record h {
  device = false;
  cdev = false;
  memory = false;
  region = false;
  hotplug_state = false;
  class = false;
}

-- What the module may hold after an initialisation: everything, with status 0, so that `exit` gives
-- back all but the thread; or nothing but, perhaps, the thread.
abbrev pub IsOutcome : ℤ × Held → Type 0
IsOutcome (status, h) =
    ((status ≡ pos 0)
      × (h ≡ record {
        class = true;
        hotplug_state = true;
        thread = true;
        region = true;
        memory = true;
        cdev = true;
        device = true;
      })
      × (exit h ≡ record nothing { thread = true }))
    ⊎ (h ≡ record nothing { thread = h.thread })

-- If only `device_create` fails, the status is that of success, and all but the thread is given back.
pub init-device_create :
    (r : Results)
    → ltb_ℤ r.class_create (pos 0) ≡ false
    → ltb_ℤ r.setup_state (pos 0) ≡ false
    → ltb_ℤ r.kthread_run (pos 0) ≡ false
    → ltb_ℤ r.alloc_region (pos 0) ≡ false
    → r.kzalloc ≡ true
    → (r.cdev_add ==ℤ pos 0) ≡ true
    → r.device_create <ℤ pos 0
    → init r ≡ (success, record nothing { thread = true })
unfolding init
init-device_create r a b c d e f g = ground arith
