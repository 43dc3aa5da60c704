-- ===== src/Exam/MergeArray.antt =====
-- exam/point_to_offer/05_mergeArray.c: two arrays in order merged from the end into the first,
-- which has room for both. `i`, `j` and the rounds are one above the source's `i`, `j` and `k`.
use code_snippet.Prelude.{
  ℕ, zero, suc, ◌+◌, ◌-◌, ◌≡◌, inl, inr, refl, ap, sym, ◌∙◌, append-nil, append_assoc, true, ◌&&◌,
  Option, some, List, [], ◌∷◌, ◌++◌, ℤ, ◌≤ℤ◌, ltb_ℤ, ltb, if◌then◌else◌, ◌>>=◌, length, All, arith,
  Bool-cases,
}
use code_snippet.Prelude.Arrays.{get_elem?, store}
use code_snippet.Prelude.Focus.{rebuild, get_elem?-rebuild, store-rebuild, length-rebuild}
use code_snippet.Sort.Order.{
  IsSorted, IsFalling, AreBelow, occurrences, rebuild-IsSorted, occurrences-rebuild, AreBelow-nil,
  All-down, rebuild-append,
}

-- The second loop: what is left of the second array.
unfoldable pub copy_rest : (rounds : ℕ) → List ℤ → List ℤ → (j : ℕ) → Option (List ℤ)
copy_rest zero arr1 arr2 j = some arr1
copy_rest (suc k) arr1 arr2 j = do
  y ← get_elem? arr2 (j - 1)
  arr1' ← store arr1 k y
  copy_rest k arr1' arr2 (j - 1)

-- The first loop, and the second one after it if `i` has run out.
unfoldable pub merge_from : (rounds : ℕ) → List ℤ → List ℤ → (i j : ℕ) → Option (List ℤ)
merge_from zero arr1 arr2 i j = some arr1
merge_from (suc k) arr1 arr2 i j =
    if ltb 0 i && ltb 0 j
    then (get_elem? arr1 (i - 1) >>= λ x. get_elem? arr2 (j - 1) >>= λ y.
        if ltb_ℤ y x
        then (store arr1 k x >>= λ arr1'. merge_from k arr1' arr2 (i - 1) j)
        else (store arr1 k y >>= λ arr1'. merge_from k arr1' arr2 i (j - 1)))
    else if ltb 0 i
    then some arr1
    else copy_rest (suc k) arr1 arr2 j

-- `mergeArray`
unfoldable pub merge_array : List ℤ → ℕ → List ℤ → ℕ → Option (List ℤ)
merge_array arr1 n1 arr2 n2 = merge_from (n1 + n2) arr1 arr2 n1 n2

-- The merge of two lists that have their greatest element first.
abbrev merged : List ℤ → List ℤ → List ℤ
merged [] ys = ys
merged (x ∷ xs) [] = x ∷ xs
merged (x ∷ xs) (y ∷ ys) = if ltb_ℤ y x then x ∷ merged xs (y ∷ ys) else y ∷ merged (x ∷ xs) ys

rebuild-join : (xs ys zs : List ℤ) → rebuild (xs ++ ys) zs ≡ rebuild ys (rebuild xs zs)
rebuild-join [] ys zs = refl
rebuild-join (x ∷ xs) ys zs = rebuild-join xs ys (x ∷ zs)

length-append : (xs ys : List ℤ) → length (xs ++ ys) ≡ length xs + length ys
length-append [] ys = omega arith
length-append (x ∷ xs) ys = omega (arith, length-append xs ys)

copy_rest-eq :
    (gaps ys out rest : List ℤ)
    → length gaps ≡ length ys
    → copy_rest (length ys) (rebuild gaps out) (rebuild ys rest) (length ys) ≡ some (rebuild ys out)
unfolding copy_rest
copy_rest-eq [] [] out rest e = refl
copy_rest-eq [] (y ∷ ys) out rest e = absurd (omega (arith, e))
copy_rest-eq (g ∷ gs) [] out rest e = absurd (omega (arith, e))
copy_rest-eq (g ∷ gs) (y ∷ ys) out rest e =
    let back : suc (length ys) - 1 ≡ length ys = omega arith in
    rw
      (
        back,
        get_elem?-rebuild ys (y ∷ rest) (length ys) 0 (omega arith),
        store-rebuild gs (g ∷ out) (y ∷ out) (length ys) 0 y (omega (arith, e)) refl,
      )
      (copy_rest-eq gs ys (y ∷ out) (y ∷ rest) (omega (arith, e)))

merge_turn :
    (k : ℕ) (h : ℤ) (gs : List ℤ) (x : ℤ) (xs : List ℤ) (y : ℤ) (ys out rest : List ℤ)
    → suc k ≡ suc (length xs) + suc (length ys)
    → suc (length gs) ≡ suc (length ys)
    → merge_from
        (suc k)
        (rebuild (h ∷ gs ++ x ∷ xs) out)
        (rebuild (y ∷ ys) rest)
        (suc (length xs))
        (suc (length ys))
      ≡ (if ltb_ℤ y x
          then merge_from k
              (rebuild (gs ++ x ∷ xs) (x ∷ out))
              (rebuild (y ∷ ys) rest)
              (length xs)
              (suc (length ys))
          else merge_from k
              (rebuild (gs ++ x ∷ xs) (y ∷ out))
              (rebuild (y ∷ ys) rest)
              (suc (length xs))
              (length ys))
unfolding merge_from
merge_turn k h gs x xs y ys out rest e g =
    let some_x : ltb 0 (suc (length xs)) ≡ true = ground arith in
    let some_y : ltb 0 (suc (length ys)) ≡ true = ground arith in
    let back_x : suc (length xs) - 1 ≡ length xs = omega arith in
    let back_y : suc (length ys) - 1 ≡ length ys = omega arith in
    let whole = rebuild-join (h ∷ gs) (x ∷ xs) out in
    let reads : get_elem? (rebuild (h ∷ gs ++ x ∷ xs) out) (length xs) ≡ some x =
      ap (λ a. get_elem? a (length xs)) whole
      ∙ get_elem?-rebuild xs (x ∷ rebuild (h ∷ gs) out) (length xs) 0 (omega arith) in
    let last : k ≡ length (gs ++ x ∷ xs) + 0 = omega (arith, e, g, length-append gs (x ∷ xs)) in
    let writes : (v : ℤ)
        → store (rebuild (h ∷ gs ++ x ∷ xs) out) k v ≡ some (rebuild (gs ++ x ∷ xs) (v ∷ out)) =
      (λ v. store-rebuild (gs ++ x ∷ xs) (h ∷ out) (v ∷ out) k 0 v last refl) in
    rw
      (
        some_x,
        some_y,
        back_x,
        back_y,
        reads,
        get_elem?-rebuild ys (y ∷ rest) (length ys) 0 (omega arith),
        writes x,
        writes y,
      )
      refl

merge_from-eq :
    (k : ℕ) (gaps xs ys out rest : List ℤ)
    → k ≡ length xs + length ys
    → length gaps ≡ length ys
    → merge_from k (rebuild (gaps ++ xs) out) (rebuild ys rest) (length xs) (length ys)
      ≡ some (rebuild (merged xs ys) out)
unfolding merge_from
merge_from-eq zero [] [] [] out rest e g = refl
merge_from-eq zero (h ∷ gs) [] [] out rest e g = absurd (omega (arith, g))
merge_from-eq zero gaps (x ∷ xs) ys out rest e g = absurd (omega (arith, e))
merge_from-eq zero gaps [] (y ∷ ys) out rest e g = absurd (omega (arith, e))
merge_from-eq (suc k) gaps [] ys out rest e g =
    let size : suc k ≡ length ys = omega (arith, e) in
    rw (append-nil gaps, size) (copy_rest-eq gaps ys out rest g)
merge_from-eq (suc k) [] (x ∷ xs) [] out rest e g =
    let some_left : ltb 0 (suc (length xs)) ≡ true = ground arith in rw some_left refl
merge_from-eq (suc k) (h ∷ gs) xs [] out rest e g = absurd (omega (arith, g))
merge_from-eq (suc k) [] xs (y ∷ ys) out rest e g = absurd (omega (arith, g))
merge_from-eq (suc k) (h ∷ gs) (x ∷ xs) (y ∷ ys) out rest e g = elim (Bool-cases (ltb_ℤ y x)) [
  | inl less ↦
      merge_turn k h gs x xs y ys out rest e g
      ∙ rw (less, sym (append_assoc gs (x ∷ []) xs))
          (merge_from-eq k (gs ++ (x ∷ [])) xs (y ∷ ys) (x ∷ out) rest (omega (arith, e))
            (omega (arith, g, length-append gs (x ∷ []))))
  | inr not_less ↦
      merge_turn k h gs x xs y ys out rest e g
      ∙ rw not_less (
          merge_from-eq k gs (x ∷ xs) ys (y ∷ out) (y ∷ rest) (omega (arith, e)) (omega (arith, g)))
]

-- The merge of falling lists.
All-merged : (P : ℤ → Type 0) (xs ys : List ℤ) → All P xs → All P ys → All P (merged xs ys)
All-merged P [] ys a b = b
All-merged P (x ∷ xs) [] a b = a
All-merged P (x ∷ xs) (y ∷ ys) a b =
    ground (arith, All-merged P xs (y ∷ ys) a.1 b, All-merged P (x ∷ xs) ys a b.1)

merged-IsFalling : (xs ys : List ℤ) → IsFalling xs → IsFalling ys → IsFalling (merged xs ys)
merged-IsFalling [] ys a b = b
merged-IsFalling (x ∷ xs) [] a b = a
merged-IsFalling (x ∷ xs) (y ∷ ys) a b = elim (Bool-cases (ltb_ℤ y x)) [
  | inl less ↦ rw less (
    All-merged (λ z. z ≤ℤ x) xs (y ∷ ys) a.0
        (ground (arith, less), All-down x y ys (ground (arith, less)) b.0),
    merged-IsFalling xs (y ∷ ys) a.1 b,
  )
  | inr not_less ↦ rw not_less (
    All-merged (λ z. z ≤ℤ y) (x ∷ xs) ys
        (ground (arith, not_less), All-down y x xs (ground (arith, not_less)) a.0) b.0,
    merged-IsFalling (x ∷ xs) ys a b.1,
  )
]

occurrences-merged :
    (v : ℤ) (xs ys : List ℤ) → occurrences v (merged xs ys) ≡ occurrences v xs + occurrences v ys
occurrences-merged v [] ys = omega arith
occurrences-merged v (x ∷ xs) [] = omega arith
occurrences-merged v (x ∷ xs) (y ∷ ys) =
    ground (arith, occurrences-merged v xs (y ∷ ys), occurrences-merged v (x ∷ xs) ys)

-- A list turned round.
rebuild-IsFalling :
    (xs ys : List ℤ) → IsSorted xs → IsFalling ys → AreBelow ys xs → IsFalling (rebuild xs ys)
rebuild-IsFalling [] ys s f b = f
rebuild-IsFalling (x ∷ xs) ys s f b =
    rebuild-IsFalling xs (x ∷ ys) s.1 (heads x xs ys b, f) (s.0, tails x xs ys b)
  where
    heads : (x : ℤ) (xs ys : List ℤ) → AreBelow ys (x ∷ xs) → All (λ y. y ≤ℤ x) ys
    heads x xs [] b = tt
    heads x xs (y ∷ ys) b = (b.0.0, heads x xs ys b.1)

    tails : (x : ℤ) (xs ys : List ℤ) → AreBelow ys (x ∷ xs) → AreBelow ys xs
    tails x xs [] b = tt
    tails x xs (y ∷ ys) b = (b.0.1, tails x xs ys b.1)

rebuild-rebuild : (xs ys zs : List ℤ) → rebuild (rebuild xs ys) zs ≡ rebuild ys (xs ++ zs)
rebuild-rebuild [] ys zs = refl
rebuild-rebuild (x ∷ xs) ys zs = rebuild-rebuild xs (x ∷ ys) zs

-- Of two arrays in order, the first with room for the second behind its elements, `mergeArray`
-- makes one in order with the elements of both, each as often as in the two together. It stays
-- inside the arrays, and leaves what stands behind the room.
pub merge_array-IsSorted :
    (xs ys room rest rest2 : List ℤ)
    → IsSorted xs
    → IsSorted ys
    → length room ≡ length ys
    → (out : List ℤ) × (merge_array (xs ++ (room ++ rest)) (length xs) (ys ++ rest2) (length ys)
        ≡ some (out ++ rest))
      × IsSorted out
      × ((v : ℤ) → occurrences v out ≡ occurrences v xs + occurrences v ys)
unfolding merge_array
merge_array-IsSorted xs ys room rest rest2 s t e =
    let rx = rebuild xs [] in
    let ry = rebuild ys [] in
    let gaps = rebuild room [] in
    let len_x : length rx ≡ length xs = omega (arith, length-rebuild xs []) in
    let len_y : length ry ≡ length ys = omega (arith, length-rebuild ys []) in
    let len_g : length gaps ≡ length room = omega (arith, length-rebuild room []) in
    let whole : rebuild (gaps ++ rx) rest ≡ xs ++ (room ++ rest) =
      rebuild-join gaps rx rest
      ∙ ap (rebuild rx) (rebuild-rebuild room [] rest)
      ∙ rebuild-rebuild xs [] (room ++ rest) in
    let run =
      merge_from-eq (length rx + length ry) gaps rx ry rest rest2 refl
        (omega (arith, len_y, len_g, e)) in
    (
      rebuild (merged rx ry) [],
      rw (← whole) (
          rw (← rebuild-rebuild ys [] rest2)
            (rw (← len_x, ← len_y) (run ∙ ap some (rebuild-append (merged rx ry) [] rest)))),
      rebuild-IsSorted (merged rx ry) []
          (merged-IsFalling rx ry (rebuild-IsFalling xs [] s tt tt)
            (rebuild-IsFalling ys [] t tt tt))
          tt (AreBelow-nil (merged rx ry)),
      λ v. omega (
        arith,
        occurrences-rebuild v (merged rx ry) [],
        occurrences-merged v rx ry,
        occurrences-rebuild v xs [],
        occurrences-rebuild v ys [],
      ),
    )
