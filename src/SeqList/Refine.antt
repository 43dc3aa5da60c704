-- ===== src/SeqList/Refine.antt =====
-- The array list keeps a list: `list_delete` and `list_insert` on it.
use code_snippet.Prelude.{
  ℕ, suc, ◌+◌, ◌-◌, ◌≡◌, refl, ap, ◌∙◌, sym, Bool, true, false, some, List, [], ◌∷◌, ◌++◌, ℤ, ◌==ℤ◌,
  if◌then◌else◌, length, arith, Bool-cases, inl, inr, ◌⊎◌,
}
use code_snippet.Prelude.Arrays.{get_elem?}
use code_snippet.Prelude.Focus.{rebuild, get_elem?-rebuild, store-rebuild}
use code_snippet.Stack.Lifo.{success, failure}
use code_snippet.SeqList.{SeqList, close_gap, delete_from, delete}

abbrev pub has : ℤ → List ℤ → Bool
has v [] = false
has v (x ∷ xs) = if x ==ℤ v then true else has v xs

-- The list without the first element that is the value.
abbrev pub removed : ℤ → List ℤ → List ℤ
removed v [] = []
removed v (x ∷ xs) = if x ==ℤ v then xs else x ∷ removed v xs

close_gap-rebuild :
    (pre : List ℤ) (x : ℤ) (ys spare : List ℤ) (j : ℕ)
    → j ≡ suc (length pre)
    → (z : ℤ) × (close_gap (length ys) j (rebuild pre (x ∷ ys ++ spare))
        ≡ some (rebuild pre (ys ++ z ∷ spare)))
unfolding close_gap
close_gap-rebuild pre x [] spare j e = (x, refl)
close_gap-rebuild pre x (y ∷ ys) spare j e =
    let (z, runs) = close_gap-rebuild (y ∷ pre) y ys spare (j + 1) (omega (arith, e)) in
    (
      z,
      rw
          (
            get_elem?-rebuild pre (x ∷ y ∷ ys ++ spare) j 1 (omega (arith, e)),
            store-rebuild pre (x ∷ y ∷ ys ++ spare) (y ∷ y ∷ ys ++ spare) (j - 1) 0 y
                (omega (arith, e)) refl,
          )
          runs,
    )

-- The list has the elements `xs` at the front of its array.
pub record Holds (l : SeqList) (xs : List ℤ) : Type 0 where
  pub spare : List ℤ
  pub contents : l.buf ≡ xs ++ spare
  pub size : l.top ≡ length xs
  pub room : l.max ≡ length l.buf

delete_from-rebuild :
    (l : SeqList) (v : ℤ) (pre ys spare : List ℤ) (i : ℕ)
    → l.buf ≡ rebuild pre (ys ++ spare)
    → i ≡ length pre
    → has v ys ≡ true
    → (z : ℤ) × (delete_from (length ys) i l v
        ≡ some (
          success,
          some (record l { buf = rebuild pre (removed v ys ++ z ∷ spare); top = l.top - 1 }),
        ))
unfolding delete_from
delete_from-rebuild l v pre [] spare i b e h = cc
delete_from-rebuild l v pre (y ∷ ys) spare i b e h =
    let reads : get_elem? l.buf i ≡ some y =
      rw b (get_elem?-rebuild pre (y ∷ ys ++ spare) i 0 (omega (arith, e))) in
    elim (Bool-cases (y ==ℤ v)) [
      | inl same ↦
          let (z, runs) = close_gap-rebuild pre y ys spare (i + 1) (omega (arith, e)) in
          (z, rw (reads, same, b, runs) refl)
      | inr other ↦
          let (z, runs) =
            delete_from-rebuild l v (y ∷ pre) ys spare (i + 1) b (omega (arith, e))
              (ground (arith, h)) in
          (z, rw (reads, other) runs)
    ]

delete_from-missing :
    (l : SeqList) (v : ℤ) (pre ys spare : List ℤ) (i : ℕ)
    → l.buf ≡ rebuild pre (ys ++ spare)
    → i ≡ length pre
    → has v ys ≡ false
    → delete_from (length ys) i l v ≡ some (failure, some l)
unfolding delete_from
delete_from-missing l v pre [] spare i b e h = refl
delete_from-missing l v pre (y ∷ ys) spare i b e h =
    let reads : get_elem? l.buf i ≡ some y =
      rw b (get_elem?-rebuild pre (y ∷ ys ++ spare) i 0 (omega (arith, e))) in
    let other : (y ==ℤ v) ≡ false = ground (arith, h) in
    rw (reads, other)
      (delete_from-missing l v (y ∷ pre) ys spare (i + 1) b (omega (arith, e))
        (ground (arith, h, other)))

length-removed : (v : ℤ) (xs : List ℤ) → has v xs ≡ true → length xs ≡ suc (length (removed v xs))
length-removed v [] h = cc
length-removed v (x ∷ xs) h = ground (arith, length-removed v xs)

length-append :
    (xs : List ℤ) (z : ℤ) (ys : List ℤ) → length (xs ++ z ∷ ys) ≡ suc (length (xs ++ ys))
length-append [] z ys = refl
length-append (x ∷ xs) z ys = ap suc (length-append xs z ys)

length-removed-append :
    (v : ℤ) (xs : List ℤ) (z : ℤ) (ys : List ℤ)
    → has v xs ≡ true
    → length (removed v xs ++ z ∷ ys) ≡ length (xs ++ ys)
length-removed-append v [] z ys h = cc
length-removed-append v (x ∷ xs) z ys h =
    ground (arith, length-removed-append v xs z ys, length-append xs z ys)

-- `list_delete` of a value that the list holds returns 0 and takes the first such value out, the
-- others keeping their order; of another value it returns -1 and changes nothing. It never leaves
-- the array.
pub seq_delete-Holds :
    (l : SeqList) (xs : List ℤ) (v : ℤ)
    → Holds l xs
    → ((has v xs ≡ true)
        × (l' : SeqList) × (delete (some l) v ≡ some (success, some l'))
        × Holds l' (removed v xs))
      ⊎ ((has v xs ≡ false) × (delete (some l) v ≡ some (failure, some l)))
unfolding delete
seq_delete-Holds l xs v w = elim (Bool-cases (has v xs)) [
  | inl held ↦
      let (z, runs) = delete_from-rebuild l v [] xs w.spare 0 w.contents refl held in
      inl (
        held,
        record l { buf = removed v xs ++ z ∷ w.spare; top = l.top - 1 },
        ap (λ n. delete_from n 0 l v) w.size ∙ runs,
        record {
          spare = z ∷ w.spare;
          contents = refl;
          size = omega (arith, w.size, length-removed v xs held);
          room = w.room ∙ ap length w.contents ∙ sym (length-removed-append v xs z w.spare held);
        },
      )
  | inr missing ↦ inr (
    missing,
    ap (λ n. delete_from n 0 l v) w.size
        ∙ delete_from-missing l v [] xs w.spare 0 w.contents refl missing,
  )
]
