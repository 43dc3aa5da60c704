-- ===== src/Sort/Bubble.antt =====
-- A pass of `bubble_sort` carries the greatest element so far to the end.
use code_snippet.Prelude.{
  ℕ, zero, suc, ◌+◌, ◌-◌, ◌≡◌, refl, ap, sym, ◌∙◌, Bool, true, false, ◌||◌, some, List, [], ◌∷◌,
  ◌++◌, append_assoc, ℤ, ◌≤ℤ◌, ltb_ℤ, ltb, if◌then◌else◌, length, All, arith, Bool-cases, inl, inr,
}
use code_snippet.Prelude.Focus.{rebuild, get_elem?-rebuild, store-rebuild}
use code_snippet.Sort.{swap, bubble_pass, bubble_from, bubble_sort}
use code_snippet.Sort.Order.{IsSorted, AreBelow, AreBelow-cons, AreBelow-nil, occurrences}

-- The elements that a pass leaves behind, the element that it carries to the end, and whether it
-- swaps.
abbrev behind : ℤ → List ℤ → List ℤ
behind x [] = []
behind x (y ∷ ys) = if ltb_ℤ y x then y ∷ behind x ys else x ∷ behind y ys

abbrev carried : ℤ → List ℤ → ℤ
carried x [] = x
carried x (y ∷ ys) = if ltb_ℤ y x then carried x ys else carried y ys

abbrev swaps : ℤ → List ℤ → Bool
swaps x [] = false
swaps x (y ∷ ys) = if ltb_ℤ y x then true else swaps y ys

swap-rebuild :
    (pre : List ℤ) (x y : ℤ) (ys : List ℤ) (i j : ℕ)
    → i ≡ length pre
    → j ≡ length pre + 1
    → swap (rebuild pre (x ∷ y ∷ ys)) i j ≡ some (rebuild pre (y ∷ x ∷ ys))
unfolding swap
swap-rebuild pre x y ys i j e f =
    rw
      (
        get_elem?-rebuild pre (x ∷ y ∷ ys) i 0 (omega (arith, e)),
        get_elem?-rebuild pre (x ∷ y ∷ ys) j 1 f,
        store-rebuild pre (x ∷ y ∷ ys) (y ∷ y ∷ ys) i 0 y (omega (arith, e)) refl,
        store-rebuild pre (y ∷ y ∷ ys) (y ∷ x ∷ ys) j 1 x f refl,
      )
      refl

bubble_pass-rebuild :
    (pre : List ℤ) (x : ℤ) (ys rest : List ℤ) (j : ℕ) (flag : Bool)
    → j ≡ length pre
    → bubble_pass (length ys) j (rebuild pre (x ∷ ys ++ rest)) flag
      ≡ some (rebuild pre (behind x ys ++ carried x ys ∷ rest), flag || swaps x ys)
unfolding bubble_pass
bubble_pass-rebuild pre x [] rest j flag e = ground arith
bubble_pass-rebuild pre x (y ∷ ys) rest j flag e =
    let reads = get_elem?-rebuild pre (x ∷ y ∷ ys ++ rest) j 0 (omega (arith, e)) in
    let reads' = get_elem?-rebuild pre (x ∷ y ∷ ys ++ rest) (j + 1) 1 (omega (arith, e)) in
    elim (Bool-cases (ltb_ℤ y x)) [
      | inl less ↦
          rw
            (
              reads,
              reads',
              less,
              swap-rebuild pre x y (ys ++ rest) j (j + 1) e (omega (arith, e)),
              bubble_pass-rebuild (y ∷ pre) x ys rest (j + 1) true (omega (arith, e)),
            )
            (ground arith)
      | inr not_less ↦
          rw
            (
              reads,
              reads',
              not_less,
              bubble_pass-rebuild (x ∷ pre) y ys rest (j + 1) flag (omega (arith, e)),
            )
            refl
    ]

length-behind : (x : ℤ) (ys : List ℤ) → length (behind x ys) ≡ length ys
length-behind x [] = refl
length-behind x (y ∷ ys) = ground (arith, length-behind x ys, length-behind y ys)

occurrences-behind :
    (v x : ℤ) (ys : List ℤ)
    → occurrences v (behind x ys) + occurrences v (carried x ys ∷ []) ≡ occurrences v (x ∷ ys)
occurrences-behind v x [] = omega arith
occurrences-behind v x (y ∷ ys) =
    ground (arith, occurrences-behind v x ys, occurrences-behind v y ys)

le-carried : (x : ℤ) (ys : List ℤ) → x ≤ℤ carried x ys
le-carried x [] = omega arith
le-carried x (y ∷ ys) = ground (arith, le-carried x ys, le-carried y ys)

behind-le : (x : ℤ) (ys : List ℤ) → All (λ y. y ≤ℤ carried x ys) (behind x ys)
behind-le x [] = tt
behind-le x (y ∷ ys) = elim (Bool-cases (ltb_ℤ y x)) [
  | inl less ↦ rw less (ground (arith, le-carried x ys, less), behind-le x ys)
  | inr not_less ↦ rw not_less (ground (arith, le-carried y ys, not_less), behind-le y ys)
]

All-behind :
    (P : ℤ → Type 0) (x : ℤ) (ys : List ℤ) → All P (x ∷ ys) → All P (behind x ys) × P (carried x ys)
All-behind P x [] a = (tt, a.0)
All-behind P x (y ∷ ys) a = ground (arith, All-behind P x ys, All-behind P y ys)

All-up : (x y : ℤ) (ys : List ℤ) → x ≤ℤ y → All (λ z. y ≤ℤ z) ys → All (λ z. x ≤ℤ z) ys
All-up x y [] e a = tt
All-up x y (z ∷ ys) e a = (omega arith, All-up x y ys e a.1)

still-behind :
    (x : ℤ) (ys tail : List ℤ)
    → swaps x ys ≡ false
    → (behind x ys ++ carried x ys ∷ tail ≡ x ∷ ys ++ tail) × IsSorted (x ∷ ys)
still-behind x [] tail h = (refl, (tt, tt))
still-behind x (y ∷ ys) tail h =
    let not_less : ltb_ℤ y x ≡ false = ground (arith, h) in
    let (same, sorted) = still-behind y ys tail (ground (arith, h)) in
    rw not_less (
      ap (◌∷◌ x) same,
      ((ground (arith, not_less), All-up x y ys (ground (arith, not_less)) sorted.0), sorted),
    )

IsSorted-append :
    (xs tail : List ℤ) → IsSorted xs → IsSorted tail → AreBelow xs tail → IsSorted (xs ++ tail)
IsSorted-append [] tail s t b = t
IsSorted-append (x ∷ xs) tail s t b = (All-join xs tail s.0 b.0, IsSorted-append xs tail s.1 t b.1)
  where
    All-join :
        (ys zs : List ℤ)
        → All (λ y. x ≤ℤ y) ys
        → All (λ y. x ≤ℤ y) zs
        → All (λ y. x ≤ℤ y) (ys ++ zs)
    All-join [] zs a c = c
    All-join (y ∷ ys) zs a c = (a.0, All-join ys zs a.1 c)

occurrences-append :
    (v : ℤ) (xs ys : List ℤ) → occurrences v (xs ++ ys) ≡ occurrences v xs + occurrences v ys
occurrences-append v [] ys = omega arith
occurrences-append v (x ∷ xs) ys = omega (arith, occurrences-append v xs ys)

bubble_round :
    (rounds i n : ℕ) (x : ℤ) (ys rest : List ℤ)
    → n ≡ i + suc (length ys)
    → bubble_from (suc rounds) i n (x ∷ ys ++ rest) ≡ (
        if swaps x ys
        then bubble_from rounds (i + 1) n (behind x ys ++ carried x ys ∷ rest)
        else some (behind x ys ++ carried x ys ∷ rest))
unfolding bubble_from
bubble_round rounds i n x ys rest e =
    let size : n - i - 1 ≡ length ys = omega (arith, e) in
    rw (size, bubble_pass-rebuild [] x ys rest 0 false refl) refl

-- The rounds left are as many as the elements that are not yet in place, `xs`; `tail` is in place.
bubble_from-IsSorted :
    (rounds i n : ℕ) (xs tail rest : List ℤ)
    → rounds ≡ length xs
    → n ≡ i + length xs
    → IsSorted tail
    → AreBelow xs tail
    → (out : List ℤ) × (bubble_from rounds i n (xs ++ (tail ++ rest)) ≡ some (out ++ rest))
      × IsSorted out
      × ((v : ℤ) → occurrences v out ≡ occurrences v xs + occurrences v tail)
unfolding bubble_from
bubble_from-IsSorted zero i n [] tail rest r e s b = (tail, refl, s, λ v. omega arith)
bubble_from-IsSorted zero i n (x ∷ ys) tail rest r e s b = absurd (omega (arith, r))
bubble_from-IsSorted (suc rounds) i n [] tail rest r e s b = absurd (omega (arith, r))
bubble_from-IsSorted (suc rounds) i n (x ∷ ys) tail rest r e s b =
    let step = bubble_round rounds i n x ys (tail ++ rest) e in
    let (placed, top) = All-behind (λ y. All (λ z. y ≤ℤ z) tail) x ys b in
    elim (Bool-cases (swaps x ys)) [
      | inl again ↦
          let (out, runs, sorted, same) =
            bubble_from-IsSorted rounds (i + 1) n (behind x ys) (carried x ys ∷ tail) rest
              (omega (arith, r, length-behind x ys)) (omega (arith, e, length-behind x ys)) (top, s)
              (AreBelow-cons (carried x ys) (behind x ys) tail (behind-le x ys) placed) in
          (out, step ∙ rw again runs, sorted, λ v. omega (arith, same v, occurrences-behind v x ys))
      | inr still ↦
          let (same, sorted) = still-behind x ys (tail ++ rest) still in
          (
            x ∷ ys ++ tail,
            step ∙ rw still (ap some (same ∙ ap (◌∷◌ x) (sym (append_assoc ys tail rest)))),
            IsSorted-append (x ∷ ys) tail sorted s b,
            λ v. occurrences-append v (x ∷ ys) tail,
          )
    ]

-- `bubble_sort` of the first `n` elements of an array stays in the array, puts these elements in
-- order, each as often as before, and leaves the elements after them as they are.
pub bubble_sort-IsSorted :
    (xs rest : List ℤ)
    → (out : List ℤ) × (bubble_sort (xs ++ rest) (length xs) ≡ some (out ++ rest))
      × IsSorted out
      × ((v : ℤ) → occurrences v out ≡ occurrences v xs)
unfolding bubble_sort
bubble_sort-IsSorted [] rest = ([], refl, tt, λ v. refl)
bubble_sort-IsSorted (x ∷ xs) rest =
    let (out, runs, sorted, same) =
      bubble_from-IsSorted (length (x ∷ xs)) 0 (length (x ∷ xs)) (x ∷ xs) [] rest refl (omega arith)
        tt (AreBelow-nil (x ∷ xs)) in
    let some_left : ltb (length (x ∷ xs)) 1 ≡ false = ground arith in
    (out, rw some_left runs, sorted, λ v. omega (arith, same v))
