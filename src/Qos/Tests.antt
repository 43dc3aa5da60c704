-- ===== src/Qos/Tests.antt =====
-- The theorems on the two modules, with constraints that count their requests and keep the last
-- bounds.
use code_snippet.Prelude.{
  ℕ, ◌+◌, ◌-◌, ◌≡◌, refl, true, false, some, List, [], ◌∷◌, ℤ, pos, negsuc, ltb_ℤ, not, length,
  ◌==◌, if◌then◌else◌, arith,
}
use code_snippet.Qos.Errors.{einval}
use code_snippet.Qos.Api.{Which, lower, upper, other, QosApi}
use code_snippet.Qos.Cpufreq
use code_snippet.Qos.Cpufreq.{create_policy, remove_policy, other_event, Event, notify}
use code_snippet.Qos.Cpufreq.Lifetime
use code_snippet.Qos.Devfreq
use code_snippet.Qos.Devfreq.Lifetime.{Found, Registry}
use code_snippet.Qos.Devfreq.Numbers.{IsNumbered, init-IsNumbered}

record Requests : Type 0 where
  lows : ℕ
  highs : ℕ
  low : ℤ
  high : ℤ

-- A negative bound is refused.
abbrev set_bound : Which → ℤ → Requests → Requests
set_bound lower v q = record q { low = v }
set_bound upper v q = record q { high = v }

abbrev count : Which → Requests → ℕ
count lower q = q.lows
count upper q = q.highs

abbrev add_one : Which → Requests → Requests
add_one lower q = record q { lows = q.lows + 1 }
add_one upper q = record q { highs = q.highs + 1 }

abbrev remove_last : Which → Requests → Requests
remove_last lower q = record q { lows = q.lows - 1 }
remove_last upper q = record q { highs = q.highs - 1 }

abbrev bound : Which → Requests → ℤ
bound lower q = q.low
bound upper q = q.high

abbrev change : (Which → Requests → Requests) → Which → ℤ → Requests → ℤ × Requests
change f w v q = if ltb_ℤ v (pos 0) then (einval, q) else (pos 0, set_bound w v (f w q))

count-change :
    (w : Which) (v : ℤ) (q : Requests)
    → ltb_ℤ (change add_one w v q).0 (pos 0) ≡ false
    → (count w (change add_one w v q).1 ≡ count w q + 1)
      × (count (other w) (change add_one w v q).1 ≡ count (other w) q)
count-change lower v q h = ground arith
count-change upper v q h = ground arith

count-remove :
    (w : Which) (q : Requests) (n : ℕ)
    → count w q ≡ n + 1
    → (count w (remove_last w q) ≡ n) × (count (other w) (remove_last w q) ≡ count (other w) q)
count-remove lower q n h = (omega (arith, h), refl)
count-remove upper q n h = (omega (arith, h), refl)

-- `default_high` is the upper bound that an open asks for.
abbrev counting : ℤ → QosApi
counting default_high = record {
  State = Requests;
  add = change add_one;
  update = change (λ w q. q);
  remove = remove_last;
  target = bound;
  refresh = λ q. q;
  requests = count;
  default = λ w. elim w [ lower ↦ pos 0 | upper ↦ default_high ];
  add_ok = count-change;
  remove_one = count-remove;
}

abbrev none_yet : Requests
none_yet = record { lows = 0; highs = 0; low = pos 0; high = pos 0 }

abbrev api : QosApi
api = counting (pos 9)

abbrev device : Cpufreq.Device
device = record { policy = some 0; min = pos 0; max = pos 0 }

-- The second of three CPUs fails.
abbrev cpu_results : List Cpufreq.Lifetime.CpuResults
cpu_results =
    record { cpu = 0; policy = true; cdev_add = pos 0; device_create = pos 0; symlink = true }
    ∷ record { cpu = 1; policy = false; cdev_add = negsuc 0; device_create = pos 0; symlink = true }
    ∷ record { cpu = 2; policy = true; cdev_add = pos 0; device_create = pos 0; symlink = true }
    ∷ []

abbrev results : Cpufreq.Lifetime.Results
results = record {
  class_create = pos 0;
  alloc_region = pos 0;
  major = 240;
  minor = 0;
  register_notifier = pos 0;
}

abbrev dev : Devfreq.Device
dev = record { min = pos 0; max = pos 0 }

-- Every name but that of one character has a device.
abbrev find : List ℕ → Found
find name = record {
  node = not (length name == 1);
  devfreq = true;
  kzalloc = true;
  cdev_add = pos 0;
  device_create = pos 0;
}

abbrev dev_results : Devfreq.Lifetime.Results
dev_results = record {
  class_create = pos 0;
  alloc_region = pos 0;
  major = 240;
  minor = 0;
  kstrdup = true;
}

abbrev names : List ℕ
names = 97 ∷ 98 ∷ 59 ∷ 99 ∷ 59 ∷ 100 ∷ 101 ∷ []

init-IsNumbered_example : IsNumbered 0 (Devfreq.Lifetime.init dev_results find names).1.registry
init-IsNumbered_example = init-IsNumbered dev_results find names

registers_runs :
    (Devfreq.Lifetime.init dev_results find names).1.registry
    ≡ record { dev_minor = 2; devices = 1 ∷ 0 ∷ []; memory = 2 }
unfolding Devfreq.Lifetime.init Devfreq.Lifetime.register_all Devfreq.Lifetime.register
registers_runs = refl
