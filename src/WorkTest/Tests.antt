-- ===== src/WorkTest/Tests.antt =====
-- The theorems on an idr that has room for two numbers.
use code_snippet.Prelude.{
  ℕ, zero, suc, ◌+◌, ◌≡◌, ◌≢◌, ◌≤◌, ◌<◌, refl, true, false, Option, none, some, List, [], ◌∷◌, ◌++◌,
  ℤ, pos, negsuc, All, arith,
}
use mathlib.Core.Path.{subst, ◌∙◌}
use code_snippet.WorkTest.Idr.{IdrApi, pointer_in, pointers}
use code_snippet.WorkTest.{Work, Held, c_start, c_next, init}
use code_snippet.WorkTest.Listing.{list_from, works_in, list_from-c_next}
use code_snippet.WorkTest.Creation.{IsReady}
use code_snippet.WorkTest.Balance.{IsOutcome, init-IsOutcome}

abbrev Slot : Type 0
Slot = Option (Option Work)

record Two : Type 0 where
  first : Slot
  second : Slot

abbrev slot_of : Slot → Slot → ℕ → Slot
slot_of a b zero = a
slot_of a b (suc zero) = b
slot_of a b (suc (suc k)) = none

abbrev allocate : Slot → Slot → ℤ × Two
allocate none b = (pos 0, record { first = some none; second = b })
allocate (some p) none = (pos 1, record { first = some p; second = some none })
allocate (some p) (some q) = (negsuc 27, record { first = some p; second = some q })

abbrev replace : Work → ℕ → Two → Two
replace w zero s = record s { first = some (some w) }
replace w (suc k) s = record s { second = some (some w) }

abbrev numbered : ℕ → Option Work → Option (ℕ × Work) → Option (ℕ × Work)
numbered k none rest = rest
numbered k (some w) rest = some (k, w)

abbrev next_of : Option Work → Option Work → ℕ → Option (ℕ × Work)
next_of p q zero = numbered 0 p (numbered 1 q none)
next_of p q (suc zero) = numbered 1 q none
next_of p q (suc (suc k)) = none

abbrev visit : ℕ → Slot → List (ℕ × Option Work)
visit k none = []
visit k (some p) = (k, p) ∷ []

abbrev pointer_of : Option Work → Option Work → ℕ → Option Work
pointer_of p q zero = p
pointer_of p q (suc zero) = q
pointer_of p q (suc (suc k)) = none

pointer-slot :
    (a b : Slot) (k : ℕ) → pointer_in (slot_of a b k) ≡ pointer_of (pointer_in a) (pointer_in b) k
pointer-slot a b zero = refl
pointer-slot a b (suc zero) = refl
pointer-slot a b (suc (suc k)) = refl

above_none : (a b : Slot) (k : ℕ) → 2 ≤ k → pointer_in (slot_of a b k) ≡ none
above_none a b zero h = absurd (omega (arith, h))
above_none a b (suc zero) h = absurd (omega (arith, h))
above_none a b (suc (suc k)) h = refl

abbrev IsNext : Option Work → Option Work → ℕ → Option (ℕ × Work) → Type 0
IsNext p q n none = Unit
IsNext p q n (some (id, w)) =
    (n ≤ id) × (pointer_of p q id ≡ some w) × ((k : ℕ) → n ≤ k → k < id → pointer_of p q k ≡ none)

nothing_before : (q : Option Work) (k : ℕ) → k < 1 → pointer_of none q k ≡ none
nothing_before q zero h = refl
nothing_before q (suc k) h = absurd (omega (arith, h))

next_of-IsNext : (p q : Option Work) (n : ℕ) → IsNext p q n (next_of p q n)
next_of-IsNext (some p) q zero = (omega arith, refl, λ k a b. absurd (omega (arith, b)))
next_of-IsNext none (some q) zero = (omega arith, refl, λ k a b. nothing_before (some q) k b)
next_of-IsNext none none zero = tt
next_of-IsNext p (some q) (suc zero) = (omega arith, refl, λ k a b. absurd (omega (arith, a, b)))
next_of-IsNext p none (suc zero) = tt
next_of-IsNext p q (suc (suc n)) = tt

next_of-none :
    (p q : Option Work) (n k : ℕ) → next_of p q n ≡ none → n ≤ k → pointer_of p q k ≡ none
next_of-none p q n (suc (suc k)) e h = refl
next_of-none p none n (suc zero) e h = refl
next_of-none none q zero zero e h = refl
next_of-none (some p) q zero zero e h = absurd (ground (arith, e))
next_of-none p q (suc n) zero e h = absurd (omega (arith, h))
next_of-none none (some q) zero (suc zero) e h = absurd (ground (arith, e))
next_of-none (some p) (some q) zero (suc zero) e h = absurd (ground (arith, e))
next_of-none p (some q) (suc zero) (suc zero) e h = absurd (ground (arith, e))
next_of-none p (some q) (suc (suc n)) (suc zero) e h = absurd (omega (arith, h))

abbrev visits_of : Two → List (ℕ × Option Work)
visits_of s = visit 0 s.first ++ visit 1 s.second

first_apart : (a a' b : Slot) (k : ℕ) → k ≢ 0 → slot_of a b k ≡ slot_of a' b k
first_apart a a' b zero h = absurd (h refl)
first_apart a a' b (suc zero) h = refl
first_apart a a' b (suc (suc k)) h = refl

second_apart : (a b b' : Slot) (k : ℕ) → k ≢ 1 → slot_of a b k ≡ slot_of a b' k
second_apart a b b' zero h = refl
second_apart a b b' (suc zero) h = absurd (h refl)
second_apart a b b' (suc (suc k)) h = refl

first_taken : (p : Option Work) (b : Slot) (k : ℕ) → k < 1 → slot_of (some p) b k ≢ none
first_taken p b zero h = λ e. ground (arith, e)
first_taken p b (suc k) h = absurd (omega (arith, h))

abbrev state : Slot → Slot → Two
state a b = record { first = a; second = b }

abbrev IsAllocated : Slot → Slot → ℕ → Two → Type 0
IsAllocated a b id s =
    (slot_of a b id ≡ none)
    × ((k : ℕ) → k < id → slot_of a b k ≢ none)
    × (slot_of s.first s.second id ≡ some none)
    × ((k : ℕ) → k ≢ id → slot_of s.first s.second k ≡ slot_of a b k)
    × (pointers (visits_of s) ≡ pointers (visits_of (state a b)))

allocate-slot :
    (a b : Slot) (id : ℕ) → (allocate a b).0 ≡ pos id → IsAllocated a b id (allocate a b).1
allocate-slot none b zero e =
    (refl, λ k h. absurd (omega (arith, h)), refl, first_apart (some none) none b, refl)
allocate-slot none b (suc id) e = absurd (ground (arith, e))
allocate-slot (some p) none zero e = absurd (ground (arith, e))
allocate-slot (some none) none (suc zero) e =
    (refl, first_taken none none, refl, second_apart (some none) (some none) none, refl)
allocate-slot (some (some p)) none (suc zero) e =
    (refl, first_taken (some p) none, refl, second_apart (some (some p)) (some none) none, refl)
allocate-slot (some p) none (suc (suc id)) e = absurd (ground (arith, e))
allocate-slot (some p) (some q) id e = absurd (ground (arith, e))

allocate-full : (a b : Slot) (e : ℕ) → (allocate a b).0 ≡ negsuc e → (allocate a b).1 ≡ state a b
allocate-full none b e h = absurd (ground (arith, h))
allocate-full (some p) none e h = absurd (ground (arith, h))
allocate-full (some p) (some q) e h = refl

abbrev IsReplaced : Work → Slot → Slot → ℕ → Two → Type 0
IsReplaced w a b id s =
    (slot_of s.first s.second id ≡ some (some w))
    × ((k : ℕ) → k ≢ id → slot_of s.first s.second k ≡ slot_of a b k)
    × (pointers (visits_of s) ≡ pointers (visits_of (state a b)) + 1)

replace-slot :
    (w : Work) (id : ℕ) (a b : Slot)
    → slot_of a b id ≡ some none
    → IsReplaced w a b id (replace w id (state a b))
replace-slot w zero none b e = absurd (ground (arith, e))
replace-slot w zero (some (some p)) b e = absurd (ground (arith, e))
replace-slot w zero (some none) b e = (refl, first_apart (some (some w)) (some none) b, refl)
replace-slot w (suc zero) a none e = absurd (ground (arith, e))
replace-slot w (suc zero) a (some (some p)) e = absurd (ground (arith, e))
replace-slot w (suc zero) none (some none) e =
    (refl, second_apart none (some (some w)) (some none), refl)
replace-slot w (suc zero) (some none) (some none) e =
    (refl, second_apart (some none) (some (some w)) (some none), refl)
replace-slot w (suc zero) (some (some p)) (some none) e =
    (refl, second_apart (some (some p)) (some (some w)) (some none), refl)
replace-slot w (suc (suc id)) a b e = absurd (ground (arith, e))

visits-slot : (a b : Slot) → All (λ v. slot_of a b v.0 ≡ some v.1) (visits_of (state a b))
visits-slot none none = tt
visits-slot (some p) none = (refl, tt)
visits-slot none (some q) = (refl, tt)
visits-slot (some p) (some q) = (refl, (refl, tt))

abbrev two : IdrApi Work
two = record {
  State = Two;
  limit = 2;
  slot = λ s. slot_of s.first s.second;
  idr_alloc = λ past s. allocate s.first s.second;
  idr_replace = replace;
  idr_get_next = λ s. next_of (pointer_in s.first) (pointer_in s.second);
  visits = visits_of;
  limit_none = λ s. above_none s.first s.second;
  next_some = λ s n id w e.
      let (le, here, before) =
        subst (IsNext (pointer_in s.first) (pointer_in s.second) n) e
          (next_of-IsNext (pointer_in s.first) (pointer_in s.second) n) in
      (
        le,
        pointer-slot s.first s.second id ∙ here,
        λ k a b. pointer-slot s.first s.second k ∙ before k a b,
      );
  next_none = λ s n k e h.
      pointer-slot s.first s.second k
      ∙ next_of-none (pointer_in s.first) (pointer_in s.second) n k e h;
  alloc_some = λ past s. allocate-slot s.first s.second;
  alloc_none = λ past s. allocate-full s.first s.second;
  replace_some = λ w id s. replace-slot w id s.first s.second;
  visits_slot = λ s. visits-slot s.first s.second;
}

abbrev empty_held : Held
empty_held = record {
  memory = 0;
  timers = 0;
  threads = 0;
  probe = false;
  wq_probe = false;
  g_cpuhp_state = negsuc 0;
  removals = 0;
  proc = false;
}

all_free : (k : ℕ) → slot_of none none k ≡ none
all_free zero = refl
all_free (suc zero) = refl
all_free (suc (suc k)) = refl

empty-IsReady : IsReady two 0 (state none none) empty_held
empty-IsReady = record {
  full = λ k h. absurd (omega (arith, h));
  free = λ k h. all_free k;
  visited = refl;
  memory = refl;
  timers = refl;
  threads = refl;
  removals = refl;
}

-- The second probe is refused, which the initialisation does not look at.
init-IsOutcome_example :
    (out : ℤ × Two × Held) × (init two
        (pos 0)
        (negsuc 21)
        (pos 180)
        ((true, true) ∷ (true, true) ∷ [])
        (state none none)
        empty_held
      ≡ some out)
    × IsOutcome two 2 out
init-IsOutcome_example =
    init-IsOutcome two (pos 0) (negsuc 21) (pos 180) ((true, true) ∷ (true, true) ∷ [])
      (state none none) empty_held ((refl, refl), ((refl, refl), tt)) refl empty-IsReady

abbrev work : ℕ → Work
work id = record {
  id = id;
  last_run_cpu = 0;
  timer_cpu = 1;
  kthread_cpu = 0;
  delay_time = 5;
  kthread = true;
}

abbrev both : Two
both = state (some (some (work 0))) (some (some (work 1)))

both_next : c_next two both 0 ≡ (some (work 0), 1)
unfolding c_next
both_next = refl

list_from-c_next_example :
    (list_from two 3 both (c_start two both 0) ≡ some (work 0 ∷ works_in two both 1 1))
    × (list_from two 3 both (c_start two both 1) ≡ some (works_in two both 1 1))
list_from-c_next_example = list_from-c_next two both 0 1 (work 0) both_next
