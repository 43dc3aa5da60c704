-- ===== src/WorkTest.antt =====
-- kernel_module/workqueue_test/work-test.c: works with a timer and a thread each, in an idr; the
-- file in /proc that lists them; their creation and removal.
pub mod Idr
pub mod Listing
pub mod Creation
pub mod Balance
pub mod Online
mod Tests
use code_snippet.Prelude.{
  ℕ, zero, suc, ◌+◌, ◌-◌, ◌%◌, Bool, true, false, ◌||◌, Option, none, some, List, [], ◌∷◌, ℤ, pos,
  negsuc, ltb_ℤ, ◌==ℤ◌, ltb, ◌==◌, ◌>>=◌, length, if◌then◌else◌,
}
use code_snippet.WorkTest.Idr.{IdrApi}

-- `struct test_work`. `kthread` says whether the pointer is that of a thread, and not of an error.
pub record Work : Type 0 where
  pub id : ℕ
  pub last_run_cpu : ℕ
  pub timer_cpu : ℕ
  pub kthread_cpu : ℕ
  pub delay_time : ℕ
  pub kthread : Bool

-- A line of the file.
unfoldable pub c_show : Work → List ℕ
c_show w = w.id ∷ w.timer_cpu ∷ w.last_run_cpu ∷ w.kthread_cpu ∷ w.delay_time ∷ []

-- The work, and the milliseconds that the timer is moved forward by.
unfoldable pub hrtimer_func : (cpu : ℕ) → Work → Work × ℕ
hrtimer_func cpu w = (record w { timer_cpu = cpu }, w.delay_time)

-- The work, and the milliseconds of the delays. `random₀` and `random₁` are the random numbers,
-- `online` is whether the CPU is on line after the first delay.
unfoldable pub test_work_func : (cpu random₀ random₁ : ℕ) → (online : Bool) → Work → Work × List ℕ
test_work_func cpu random₀ random₁ online w = (
  record w { last_run_cpu = cpu; delay_time = random₁ % 2 + 5 },
  random₀ % 3 ∷ (if online then [] else 200 ∷ []),
)

-- What a round of the thread sees: the two tests for its stop, the time left of its sleep, its CPU.
pub record Round : Type 0 where
  pub stop_before : Bool
  pub timeleft : ℕ
  pub stop_after : Bool
  pub cpu : ℕ

unfoldable pub test_kthread_func : List Round → Work → Work
test_kthread_func [] w = w
test_kthread_func (r ∷ rs) w =
    let rest = test_kthread_func rs (record w { kthread_cpu = r.cpu }) in
    if r.stop_before then w else if r.stop_after || ltb 0 r.timeleft then w else rest

-- What the module holds of the kernel. `removals` counts the calls of `cpuhp_remove_state`.
pub record Held : Type 0 where
  pub memory : ℕ
  pub timers : ℕ
  pub threads : ℕ
  pub probe : Bool
  pub wq_probe : Bool
  pub g_cpuhp_state : ℤ
  pub removals : ℕ
  pub proc : Bool

-- The arguments are what `register_kretprobe` returns.
unfoldable pub kretprobe_init : (ret₀ ret₁ : ℤ) → Held → ℤ × Held
kretprobe_init ret₀ ret₁ h =
    if ltb_ℤ ret₀ (pos 0)
    then (negsuc 0, h)
    else (let h' : Held = record h { probe = true } in
        if ltb_ℤ ret₁ (pos 0) then (negsuc 0, h') else (pos 0, record h' { wq_probe = true }))

unfoldable pub kretprobe_exit : Held → Held
kretprobe_exit h = record h { probe = false; wq_probe = false }

-- `item_idr_free`. An error pointer in place of the thread is undefined.
unfoldable pub item_idr_free : Option Work → Held → Option Held
item_idr_free none h = some h
item_idr_free (some w) h =
    if w.kthread
    then some (record h {
      removals = (if h.g_cpuhp_state ==ℤ negsuc 0 then h.removals else h.removals + 1);
      threads = h.threads - 1;
      timers = h.timers - 1;
      memory = h.memory - 1;
    })
    else none

unfoldable pub free_each : List (ℕ × Option Work) → Held → Option Held
unfolding item_idr_free
free_each [] h = some h
free_each ((id, p) ∷ rest) h = do h' ← item_idr_free p h; free_each rest h'

module _ (api : IdrApi Work) where
  open api use {State, idr_alloc, idr_replace, idr_get_next, visits}

  -- The work, and the new position.
  unfoldable pub c_start : State → (pos : ℕ) → Option Work × ℕ
  c_start s position = elim (idr_get_next s position) [
    | none ↦ (none, position + 1)
    | some (id, w) ↦ (some w, id + 1)
  ]

  unfoldable pub c_next : State → (pos : ℕ) → Option Work × ℕ
  c_next s position = elim (idr_get_next s position) [
    | none ↦ (none, position + 1)
    | some (id, w) ↦ (some w, id + 1)
  ]

  -- The works from `i` on whose timers the callback for `cpu` starts again.
  unfoldable pub rebind : (nr_cpus cpu : ℕ) → State → (rounds i : ℕ) → Option (List Work)
  rebind nr_cpus cpu s zero i = some []
  rebind nr_cpus cpu s (suc rounds) i =
      let rest = rebind nr_cpus cpu s rounds (i + 1) in
      if i % nr_cpus == cpu then (do (id, w) ← idr_get_next s i; ws ← rest; some (w ∷ ws)) else rest

  unfoldable pub wq_test_cpu_online : (num_work nr_cpus cpu : ℕ) → State → Option (List Work)
  unfolding rebind
  wq_test_cpu_online num_work nr_cpus cpu s = rebind nr_cpus cpu s num_work 0

  -- The loop of the initialisation. The list has for each round whether `kzalloc` has memory and
  -- whether `kthread_run` starts a thread. The result is the error of `idr_alloc` that ended the
  -- loop, if any.
  unfoldable pub create_from :
      (past : ℕ) → List (Bool × Bool) → State → Held → Option (Option ℤ × State × Held)
  create_from past [] s h = some (none, s, h)
  create_from past ((kzalloc, thread) ∷ rest) s h =
      let (rc, s') = idr_alloc past s in
      elim rc [
        | negsuc e ↦ some (some (negsuc e), s', h)
        | pos id ↦
            if kzalloc
            then create_from past rest
                (idr_replace
                  (record {
                    id = id;
                    last_run_cpu = 0;
                    timer_cpu = 0;
                    kthread_cpu = 0;
                    delay_time = 0;
                    kthread = thread;
                  })
                  id s')
                (record h {
                  memory = h.memory + 1;
                  timers = h.timers + 1;
                  threads = (if thread then h.threads + 1 else h.threads);
                })
            else none
      ]

  -- The initialisation: the status, the idr and what is held. `state` is what `cpuhp_setup_state`
  -- returns; the status of the probes is not read.
  unfoldable pub init :
      (ret₀ ret₁ state : ℤ) → List (Bool × Bool) → State → Held → Option (ℤ × State × Held)
  unfolding create_from kretprobe_init
  init ret₀ ret₁ state works s h = do
    let (_, probed) = kretprobe_init ret₀ ret₁ h
    (failed, s', h') ← create_from (length works + 1) works s probed
    elim failed [
      | some rc ↦ some (rc, s', h')
      | none ↦ some (pos 0, s', record h' { g_cpuhp_state = state; proc = true })
    ]

  -- `proc_workqueue_unbound_test_remove`
  unfoldable pub remove : State → Held → Option Held
  unfolding free_each kretprobe_exit
  remove s h = do h' ← free_each (visits s) (record h { proc = false }); some (kretprobe_exit h')
