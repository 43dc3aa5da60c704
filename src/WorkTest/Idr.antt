-- ===== src/WorkTest/Idr.antt =====
-- What kernel_module/workqueue_test/work-test.c uses of the kernel's idr: numbers from 0 on, each
-- free, or taken with a null pointer, or taken with a pointer.
use code_snippet.Prelude.{
  ℕ, ◌+◌, ◌≡◌, ◌≢◌, ◌≤◌, ◌<◌, Option, none, some, List, [], ◌∷◌, ℤ, pos, negsuc,
}
use code_snippet.Prelude.{All}

abbrev pub pointer_in {ℓ} : {A : Type ℓ} → Option (Option A) → Option A
pointer_in none = none
pointer_in (some p) = p

-- The pointers among what `idr_for_each` visits.
abbrev pub pointers {ℓ} : {A : Type ℓ} → List (ℕ × Option A) → ℕ
pointers [] = 0
pointers ((id, none) ∷ rest) = pointers rest
pointers ((id, some a) ∷ rest) = pointers rest + 1

-- `slot` is what the kernel has for a number: `none` for a free one, `some none` for a null pointer.
-- `idr_alloc` takes the lowest free number, with a null pointer; `idr_get_next` finds the next
-- pointer; `visits` is what `idr_for_each` calls its function with. All pointers are below `limit`.
pub record IdrApi (A : Type 0) : Type 1 where
  pub State : Type 0
  pub limit : ℕ
  pub slot : State → ℕ → Option (Option A)
  pub idr_alloc : (past : ℕ) → State → ℤ × State
  pub idr_replace : A → ℕ → State → State
  pub idr_get_next : State → ℕ → Option (ℕ × A)
  pub visits : State → List (ℕ × Option A)
  pub limit_none : (s : State) (k : ℕ) → limit ≤ k → pointer_in (slot s k) ≡ none
  pub next_some :
      (s : State) (n id : ℕ) (a : A)
      → idr_get_next s n ≡ some (id, a)
      → (n ≤ id)
        × (pointer_in (slot s id) ≡ some a)
        × ((k : ℕ) → n ≤ k → k < id → pointer_in (slot s k) ≡ none)
  pub next_none :
      (s : State) (n k : ℕ) → idr_get_next s n ≡ none → n ≤ k → pointer_in (slot s k) ≡ none
  pub alloc_some :
      (past : ℕ) (s : State) (id : ℕ)
      → (idr_alloc past s).0 ≡ pos id
      → (slot s id ≡ none)
        × ((k : ℕ) → k < id → slot s k ≢ none)
        × (slot (idr_alloc past s).1 id ≡ some none)
        × ((k : ℕ) → k ≢ id → slot (idr_alloc past s).1 k ≡ slot s k)
        × (pointers (visits (idr_alloc past s).1) ≡ pointers (visits s))
  pub alloc_none :
      (past : ℕ) (s : State) (e : ℕ) → (idr_alloc past s).0 ≡ negsuc e → (idr_alloc past s).1 ≡ s
  pub replace_some :
      (a : A) (id : ℕ) (s : State)
      → slot s id ≡ some none
      → (slot (idr_replace a id s) id ≡ some (some a))
        × ((k : ℕ) → k ≢ id → slot (idr_replace a id s) k ≡ slot s k)
        × (pointers (visits (idr_replace a id s)) ≡ pointers (visits s) + 1)
  pub visits_slot : (s : State) → All (λ v. slot s v.0 ≡ some v.1) (visits s)
