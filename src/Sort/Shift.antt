-- ===== src/Sort/Shift.antt =====
-- What the loops of `insert_sort` compute: the part of the array that is in order, last element
-- first, takes one element after the other.
use code_snippet.Prelude.{
  ℕ, zero, suc, ◌+◌, ◌-◌, ◌≡◌, refl, some, List, [], ◌∷◌, ◌++◌, ℤ, ltb_ℤ, if◌then◌else◌, length,
  arith,
}
use code_snippet.Prelude.Focus.{rebuild, get_elem?-rebuild, store-rebuild}
use code_snippet.Sort.{shift, insert_from, insert_sort}

-- The insertion into a list whose greatest element comes first.
abbrev pub insert_down : ℤ → List ℤ → List ℤ
insert_down t [] = t ∷ []
insert_down t (x ∷ xs) = if ltb_ℤ t x then x ∷ insert_down t xs else t ∷ x ∷ xs

abbrev pub insert_all : List ℤ → List ℤ → List ℤ
insert_all [] done = done
insert_all (t ∷ ts) done = insert_all ts (insert_down t done)

shift-rebuild :
    (xs : List ℤ) (y : ℤ) (rest : List ℤ) (temp : ℤ) (i : ℕ)
    → i ≡ length xs
    → shift (rebuild xs (y ∷ rest)) temp i ≡ some (rebuild (insert_down temp xs) rest)
unfolding shift
shift-rebuild [] y rest temp zero e = refl
shift-rebuild [] y rest temp (suc i) e = absurd (omega (arith, e))
shift-rebuild (x ∷ xs) y rest temp zero e = absurd (omega (arith, e))
shift-rebuild (x ∷ xs) y rest temp (suc i) e =
    rw
      (
        get_elem?-rebuild xs (x ∷ y ∷ rest) i 0 (omega (arith, e)),
        store-rebuild xs (x ∷ y ∷ rest) (x ∷ x ∷ rest) (suc i) 1 x (omega (arith, e)) refl,
        store-rebuild xs (x ∷ y ∷ rest) (x ∷ temp ∷ rest) (suc i) 1 temp (omega (arith, e)) refl,
        shift-rebuild xs x (x ∷ rest) temp i (omega (arith, e)),
      )
      (ground arith)

length-insert_down : (t : ℤ) (xs : List ℤ) → length (insert_down t xs) ≡ suc (length xs)
length-insert_down t [] = refl
length-insert_down t (x ∷ xs) = ground (arith, length-insert_down t xs)

insert_from-rebuild :
    (ts done rest : List ℤ) (i : ℕ)
    → i ≡ length done
    → insert_from (length ts) i (rebuild done (ts ++ rest))
      ≡ some (rebuild (insert_all ts done) rest)
unfolding insert_from
insert_from-rebuild [] done rest i e = refl
insert_from-rebuild (t ∷ ts) done rest i e =
    rw
      (
        get_elem?-rebuild done (t ∷ ts ++ rest) i 0 (omega (arith, e)),
        shift-rebuild done t (ts ++ rest) t i e,
      )
      (insert_from-rebuild ts (insert_down t done) rest (i + 1)
        (omega (arith, e, length-insert_down t done)))

-- `insert_sort` of the elements before `rest` never leaves the array, and leaves what inserting
-- them one by one into a list gives, from the least to the greatest, before `rest`.
pub insert_sort-insert_all :
    (xs rest : List ℤ)
    → insert_sort (xs ++ rest) (length xs) ≡ some (rebuild (insert_all xs []) rest)
unfolding insert_sort insert_from
insert_sort-insert_all [] rest = refl
insert_sort-insert_all (x ∷ xs) rest =
    let rounds : suc (length xs) - 1 ≡ length xs = omega arith in
    rw rounds (insert_from-rebuild xs (x ∷ []) rest 1 refl)
