-- ===== src/Sort/Order.antt =====
-- `insert_sort` gives the same elements, in order.
use code_snippet.Prelude.{
  ℕ, ◌+◌, ◌≡◌, refl, ap, ◌∙◌, some, List, [], ◌∷◌, ◌++◌, ℤ, ◌≤ℤ◌, ◌==ℤ◌, if◌then◌else◌, length, All,
  arith,
}
use code_snippet.Sort.{insert_sort}
use code_snippet.Prelude.Focus.{rebuild}
use code_snippet.Sort.Shift.{insert_down, insert_all, insert_sort-insert_all}

-- Each element is at most those that follow it.
abbrev pub IsSorted : List ℤ → Type 0
IsSorted [] = Unit
IsSorted (x ∷ xs) = All (λ y. x ≤ℤ y) xs × IsSorted xs

abbrev pub IsFalling : List ℤ → Type 0
IsFalling [] = Unit
IsFalling (x ∷ xs) = All (λ y. y ≤ℤ x) xs × IsFalling xs

-- Each of the first is at most each of the second.
abbrev pub AreBelow : List ℤ → List ℤ → Type 0
AreBelow xs ys = All (λ x. All (λ y. x ≤ℤ y) ys) xs

abbrev pub occurrences : ℤ → List ℤ → ℕ
occurrences v [] = 0
occurrences v (x ∷ xs) = (if x ==ℤ v then 1 else 0) + occurrences v xs

All-insert_down : (P : ℤ → Type 0) (t : ℤ) (xs : List ℤ) → P t → All P xs → All P (insert_down t xs)
All-insert_down P t [] p a = (p, tt)
All-insert_down P t (x ∷ xs) p a = ground (arith, All-insert_down P t xs p)

pub All-down : (t x : ℤ) (xs : List ℤ) → x ≤ℤ t → All (λ y. y ≤ℤ x) xs → All (λ y. y ≤ℤ t) xs
All-down t x [] e a = tt
All-down t x (y ∷ xs) e a = (omega arith, All-down t x xs e a.1)

insert_down-IsFalling : (t : ℤ) (xs : List ℤ) → IsFalling xs → IsFalling (insert_down t xs)
insert_down-IsFalling t [] f = (tt, tt)
insert_down-IsFalling t (x ∷ xs) f = ground (
  arith,
  insert_down-IsFalling t xs f.1,
  All-insert_down (λ y. y ≤ℤ x) t xs,
  All-down t x xs,
  f.0,
)

insert_all-IsFalling : (ts xs : List ℤ) → IsFalling xs → IsFalling (insert_all ts xs)
insert_all-IsFalling [] xs f = f
insert_all-IsFalling (t ∷ ts) xs f =
    insert_all-IsFalling ts (insert_down t xs) (insert_down-IsFalling t xs f)

pub AreBelow-cons :
    (x : ℤ) (xs ys : List ℤ) → All (λ y. y ≤ℤ x) xs → AreBelow xs ys → AreBelow xs (x ∷ ys)
AreBelow-cons x [] ys a b = tt
AreBelow-cons x (z ∷ xs) ys a b = ((a.0, b.0), AreBelow-cons x xs ys a.1 b.1)

pub AreBelow-nil : (xs : List ℤ) → AreBelow xs []
AreBelow-nil [] = tt
AreBelow-nil (x ∷ xs) = (tt, AreBelow-nil xs)

pub rebuild-IsSorted :
    (xs ys : List ℤ) → IsFalling xs → IsSorted ys → AreBelow xs ys → IsSorted (rebuild xs ys)
rebuild-IsSorted [] ys f s b = s
rebuild-IsSorted (x ∷ xs) ys f s b =
    rebuild-IsSorted xs (x ∷ ys) f.1 (b.0, s) (AreBelow-cons x xs ys f.0 b.1)

occurrences-insert_down :
    (v t : ℤ) (xs : List ℤ) → occurrences v (insert_down t xs) ≡ occurrences v (t ∷ xs)
occurrences-insert_down v t [] = refl
occurrences-insert_down v t (x ∷ xs) = ground (arith, occurrences-insert_down v t xs)

occurrences-insert_all :
    (v : ℤ) (ts xs : List ℤ)
    → occurrences v (insert_all ts xs) ≡ occurrences v ts + occurrences v xs
occurrences-insert_all v [] xs = omega arith
occurrences-insert_all v (t ∷ ts) xs =
    omega (arith, occurrences-insert_all v ts (insert_down t xs), occurrences-insert_down v t xs)

pub occurrences-rebuild :
    (v : ℤ) (xs ys : List ℤ) → occurrences v (rebuild xs ys) ≡ occurrences v xs + occurrences v ys
occurrences-rebuild v [] ys = omega arith
occurrences-rebuild v (x ∷ xs) ys = omega (arith, occurrences-rebuild v xs (x ∷ ys))

pub rebuild-append : (xs ys rest : List ℤ) → rebuild xs (ys ++ rest) ≡ rebuild xs ys ++ rest
rebuild-append [] ys rest = refl
rebuild-append (x ∷ xs) ys rest = rebuild-append xs (x ∷ ys) rest

-- `insert_sort` of the first `n` elements of an array stays in the array, puts these elements in
-- order, each as often as before, and leaves the elements after them as they are.
pub insert_sort-IsSorted :
    (xs rest : List ℤ)
    → (out : List ℤ) × (insert_sort (xs ++ rest) (length xs) ≡ some (out ++ rest))
      × IsSorted out
      × ((v : ℤ) → occurrences v out ≡ occurrences v xs)
insert_sort-IsSorted xs rest =
    let down = insert_all xs [] in
    (
      rebuild down [],
      insert_sort-insert_all xs rest ∙ ap some (rebuild-append down [] rest),
      rebuild-IsSorted down [] (insert_all-IsFalling xs [] tt) tt (AreBelow-nil down),
      λ v. omega (arith, occurrences-rebuild v down [], occurrences-insert_all v xs []),
    )
