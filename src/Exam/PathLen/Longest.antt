-- ===== src/Exam/PathLen/Longest.antt =====
-- `get_len` of exam/huawei/getPathLen.c finds the longest line.
use code_snippet.Prelude.{
  ℕ, zero, suc, ◌+◌, ◌*◌, ◌≡◌, ◌≢◌, ◌≤◌, ◌<◌, ◌⊎◌, inl, inr, refl, sym, ◌∙◌, some, List, ℤ, pos,
  ◌==ℤ◌, ==ℤ_iff, Bool-cases, at_or_above, side, true, false, length, arith,
}
use mathlib.Core.Path.{subst}
use code_snippet.Prelude.Arrays.{get_elem?, get_elem?-get_or}
use code_snippet.Exam.FindInMatrix.{at, index_lt}
use code_snippet.Exam.PathLen.{
  Direction, downward, rightward, falling, rising, row, column, room, run, raise, get_len,
}

raise-cases : (m l : ℕ) → ((raise m l ≡ m) × (l ≤ m)) ⊎ ((raise m l ≡ l) × (m ≤ l))
unfolding raise
raise-cases m l = ground arith

module _ (arr : List ℤ) (rows columns x y : ℕ) where
  abbrev pub cell : Direction → ℕ → ℤ
  cell d k = at arr rows columns (row d x k) (column d y k)

  -- The first `len` cells in a direction are in the matrix and hold ones.
  abbrev pub IsLine : Direction → ℕ → Type 0
  IsLine d len = (len ≤ room d rows columns x y) × ((k : ℕ) → k < len → cell d k ≡ pos 1)

  abbrev pub IsInside : Direction → ℕ → Type 0
  IsInside d k = (row d x k < rows) × (column d y k < columns)

  room-IsInside :
      (d : Direction) (k : ℕ) → x < rows → y < columns → k < room d rows columns x y → IsInside d k
  room-IsInside downward k a b h = (omega (arith, h), b)
  room-IsInside rightward k a b h = (a, omega (arith, h))
  room-IsInside falling k a b h = (ground (arith, h), ground (arith, h))
  room-IsInside rising k a b h = (ground (arith, h), ground (arith, b))

  -- What a loop finds from its round `k` on.
  abbrev IsFound : Direction → (rounds k len : ℕ) → Type 0
  IsFound d rounds k len =
      (len ≤ rounds)
      × ((j : ℕ) → k ≤ j → j < k + len → cell d j ≡ pos 1)
      × ((len ≡ rounds) ⊎ (cell d (k + len) ≢ pos 1))

  reads :
      (d : Direction) (k : ℕ)
      → length arr ≡ rows * columns
      → IsInside d k
      → get_elem? arr (row d x k * columns + column d y k) ≡ some (cell d k)
  reads d k size inside =
      let below = index_lt arr rows columns (row d x k) (column d y k) inside.0 inside.1 in
      get_elem?-get_or arr (row d x k * columns + column d y k) (pos 0) (omega (arith, below, size))

  is_one : (d : Direction) (k : ℕ) → (cell d k ==ℤ pos 1) ≡ true → cell d k ≡ pos 1
  is_one d k h = (==ℤ_iff (cell d k) (pos 1)).0 h

  not_one : (d : Direction) (k : ℕ) → (cell d k ==ℤ pos 1) ≡ false → cell d k ≢ pos 1
  not_one d k h e = ground (arith, sym h ∙ (==ℤ_iff (cell d k) (pos 1)).1 e)

  later_end :
      (d : Direction) (rounds k len : ℕ)
      → (len ≡ rounds) ⊎ (cell d (k + 1 + len) ≢ pos 1)
      → (len + 1 ≡ suc rounds) ⊎ (cell d (k + (len + 1)) ≢ pos 1)
  later_end d rounds k len (inl e) = inl (omega (arith, e))
  later_end d rounds k len (inr apart) = inr (subst (λ n. cell d n ≢ pos 1) (omega arith) apart)

  run-IsFound :
      (d : Direction) (rounds k : ℕ)
      → length arr ≡ rows * columns
      → ((j : ℕ) → k ≤ j → j < k + rounds → IsInside d j)
      → (len : ℕ) × (run arr columns x y d rounds k ≡ some len) × IsFound d rounds k len
  unfolding run
  run-IsFound d zero k size inside =
      (0, refl, (omega arith, λ j a b. absurd (omega (arith, a, b)), inl refl))
  run-IsFound d (suc rounds) k size inside =
      let (len, runs, (short, ones, ends)) =
        run-IsFound d rounds (k + 1) size
          (λ j a b. inside j (omega (arith, a)) (omega (arith, b))) in
      let here = reads d k size (inside k (omega arith) (omega arith)) in
      elim (Bool-cases (cell d k ==ℤ pos 1)) [
        | inl one ↦ (
          len + 1,
          rw (here, one, runs, run) refl,
          (
            omega (arith, short),
            λ j a b. elim (at_or_above j k a) [
              | inl same ↦ rw same (is_one d k one)
              | inr above ↦ ones j above (omega (arith, b))
            ],
            later_end d rounds k len ends,
          ),
        )
        | inr other ↦ (
          0,
          rw (here, other, run) refl,
          (
            omega arith,
            λ j a b. absurd (omega (arith, a, b)),
            inr (subst (λ n. cell d n ≢ pos 1) (omega arith) (not_one d k other)),
          ),
        )
      ]

  -- The longest line in a direction.
  abbrev IsLongest : Direction → ℕ → Type 0
  IsLongest d len = IsLine d len × ((l : ℕ) → IsLine d l → l ≤ len)

  no_longer :
      (d : Direction) (rounds len l : ℕ)
      → (len ≡ rounds) ⊎ (cell d (0 + len) ≢ pos 1)
      → l ≤ rounds
      → ((k : ℕ) → k < l → cell d k ≡ pos 1)
      → l ≤ len
  no_longer d rounds len l (inl full) short ones = omega (arith, full, short)
  no_longer d rounds len l (inr stop) short ones = elim (side len l) [
    | inl longer ↦ absurd (stop (ones (0 + len) (omega (arith, longer))))
    | inr (inl same) ↦ omega (arith, same)
    | inr (inr above) ↦ omega (arith, above)
  ]

  run-IsLongest :
      (d : Direction)
      → length arr ≡ rows * columns
      → x < rows
      → y < columns
      → (len : ℕ) × (run arr columns x y d (room d rows columns x y) 0 ≡ some len) × IsLongest d len
  run-IsLongest d size a b =
      let (len, runs, (short, ones, ends)) =
        run-IsFound d (room d rows columns x y) 0 size
          (λ j c e. room-IsInside d j a b (omega (arith, e))) in
      (
        len,
        runs,
        (
          (short, λ k below. ones k (omega arith) (omega (arith, below))),
          λ l line. no_longer d (room d rows columns x y) len l ends line.0 line.1,
        ),
      )

  -- What `raise` has seen: some line of this length, if not 0, and none longer.
  raised :
      (m l : ℕ) (d : Direction)
      → IsLongest d l
      → ((e : Direction) × IsLine e m)
      → ((e : Direction) × IsLine e (raise m l))
  raised m l d found before = elim (raise-cases m l) [
    | inl kept ↦ (before.0, rw kept.0 before.1)
    | inr new ↦ (d, rw new.0 found.0)
  ]

  raise-left : (m l : ℕ) → m ≤ raise m l
  unfolding raise
  raise-left m l = ground arith

  raise-right : (m l : ℕ) → l ≤ raise m l
  unfolding raise
  raise-right m l = ground arith

  raise_all : (Direction → ℕ) → ℕ
  raise_all found =
      raise (raise (raise (raise 0 (found downward)) (found rightward)) (found falling))
        (found rising)

  raise-four :
      (a b c d : ℕ)
      → (a ≤ raise (raise (raise (raise 0 a) b) c) d)
        × (b ≤ raise (raise (raise (raise 0 a) b) c) d)
        × (c ≤ raise (raise (raise (raise 0 a) b) c) d)
        × (d ≤ raise (raise (raise (raise 0 a) b) c) d)
  raise-four a b c d =
      let m₁ = raise 0 a in
      let m₂ = raise m₁ b in
      let m₃ = raise m₂ c in
      let e₂ = raise-left m₁ b in
      let e₃ = raise-left m₂ c in
      let e₄ = raise-left m₃ d in
      (
        omega (arith, raise-right 0 a, e₂, e₃, e₄),
        omega (arith, raise-right m₁ b, e₃, e₄),
        omega (arith, raise-right m₂ c, e₄),
        raise-right m₃ d,
      )

  raise_all-max : (found : Direction → ℕ) (d : Direction) → found d ≤ raise_all found
  unfolding raise_all
  raise_all-max found downward = (raise-four (found downward) _ _ _).0
  raise_all-max found rightward = (raise-four _ (found rightward) _ _).1
  raise_all-max found falling = (raise-four _ _ (found falling) _).2
  raise_all-max found rising = (raise-four _ _ _ (found rising)).3

  raise_all-IsLine :
      (found : Direction → ℕ)
      → ((d : Direction) → IsLongest d (found d))
      → (d : Direction) × IsLine d (raise_all found)
  unfolding raise_all
  raise_all-IsLine found f = raised _ (found rising) rising (f rising) (
      raised _ (found falling) falling (f falling) (
        raised _ (found rightward) rightward (f rightward) (
          raised 0 (found downward) downward (f downward)
            (downward, (omega arith, λ k below. absurd (omega (arith, below)))))))

  -- In a matrix of `rows` times `columns` cells, from a cell of it, `get_len` is defined, and it is
  -- the length of a line of ones that starts at the cell and stays in the matrix; no such line, in
  -- any of the four directions, is longer.
  pub get_len-longest :
      length arr ≡ rows * columns
      → x < rows
      → y < columns
      → (len : ℕ) × (get_len arr rows columns x y ≡ some len)
        × ((d : Direction) × IsLine d len)
        × ((d : Direction) (l : ℕ) → IsLine d l → l ≤ len)
  unfolding get_len raise_all
  get_len-longest size a b =
      let found : Direction → ℕ = λ d. (run-IsLongest d size a b).0 in
      let runs : (d : Direction)
          → run arr columns x y d (room d rows columns x y) 0 ≡ some (found d) =
        λ d. (run-IsLongest d size a b).1 in
      let longest : (d : Direction) → IsLongest d (found d) = λ d. (run-IsLongest d size a b).2 in
      (
        raise_all found,
        rw (runs downward, runs rightward, runs falling, runs rising) refl,
        raise_all-IsLine found longest,
        λ d l line. omega (arith, (longest d).1 l line, raise_all-max found d),
      )
