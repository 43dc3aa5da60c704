-- ===== src/Convert/Turns.antt =====
-- What a word and an operator of an expression without brackets do to the machine.
use code_snippet.Prelude.{
  ℕ, zero, suc, ◌≡◌, ◌<◌, refl, ap, sym, ◌∙◌, true, false, ◌||◌, Option, none, some, List, [], ◌∷◌,
  ◌++◌, ℤ, pos, ◌==◌, ◌>>=◌, length, All, arith, Bool-cases, inl, inr, same_index,
}
use mathlib.Core.Path.{subst}
use code_snippet.Stack.Api.{StackApi}
use code_snippet.Postfix.{is_digit, is_blank, skip}
use code_snippet.Postfix.Correct.{not_eof, not_negative}
use code_snippet.Convert.{
  is_alpha, alpha, operator, collect, next_token, getop, is_open, is_weak, Machine, rank, go,
  operate,
}
use code_snippet.Convert.Steps.{rank_ending, rank_stopping}
use code_snippet.Convert.Notation.{IsWord, is_times, is_plus}

-- No letter comes next, and no byte that is negative as a `char`.
abbrev pub Ends : List ℕ → Type 0
Ends [] = Unit
Ends (c ∷ cs) = (is_alpha c ≡ false) × (c < 128)

letter-bound : (c : ℕ) → is_alpha c ≡ true → c < 128
letter-bound c h = ground (arith, h)

collect-word :
    (room : ℕ) (w rest : List ℕ)
    → length w < room
    → All (λ c. is_alpha c ≡ true) w
    → Ends rest
    → collect is_alpha room (w ++ rest) ≡ some (w, rest)
unfolding collect
collect-word zero w rest h letters ends = absurd (omega (arith, h))
collect-word (suc room) [] [] h letters ends = refl
collect-word (suc room) [] (c ∷ rest) h letters ends =
    rw (ends.0, not_eof c ends.1, not_negative c ends.1) refl
collect-word (suc room) (d ∷ ds) rest h letters ends =
    rw (letters.0, collect-word room ds rest (omega (arith, h)) letters.1 ends) refl

letter-not-blank : (c : ℕ) → is_alpha c ≡ true → is_blank c ≡ false
letter-not-blank c h = ground (arith, h)

pub getop-word : (w rest : List ℕ) → IsWord w → Ends rest → getop (w ++ rest) ≡ some (alpha w, rest)
unfolding getop skip next_token
getop-word [] rest plain ends = absurd (omega (arith, plain.0))
getop-word (d ∷ ds) rest plain ends =
    rw
      (
        letter-not-blank d plain.2.0,
        not_eof d (letter-bound d plain.2.0),
        not_negative d (letter-bound d plain.2.0),
        plain.2.0,
        collect-word 7 ds rest (omega (arith, plain.1)) plain.2.1 ends,
      )
      refl

pub operator-plain :
    (c : ℕ) (rest : List ℕ)
    → (is_times c || is_plus c) ≡ true
    → getop (c ∷ rest) ≡ some (operator c, rest)
unfolding getop skip next_token
operator-plain c rest h =
    let blank : is_blank c ≡ false = ground (arith, h) in
    let letter : is_alpha c ≡ false = ground (arith, h) in
    let digit : is_digit c ≡ false = ground (arith, h) in
    let low : c < 128 = ground (arith, h) in
    rw (blank, not_eof c low, not_negative c low, letter, digit) refl

-- The operators that wait on the stack: of the product, and of the sum.
abbrev pub waiting : Option ℕ → Option ℕ → List ℤ
waiting none none = []
waiting none (some b) = pos b ∷ []
waiting (some t) none = pos t ∷ []
waiting (some t) (some b) = pos t ∷ pos b ∷ []

abbrev pub shown : Option ℕ → List ℤ
shown none = []
shown (some c) = pos c ∷ []

abbrev pub IsTimes : Option ℕ → Type 0
IsTimes none = Unit
IsTimes (some c) = is_times c ≡ true

-- What `ch` may hold, so that no old character is taken for one of the stack.
abbrev pub IsCalm : Option ℕ → ℤ → Type 0
IsCalm none ch = is_weak ch ≡ false
IsCalm (some b) ch = (is_open ch ≡ false) × (is_plus b ≡ true)

module _ (api : StackApi) where
  open api use {State, Holds, cap}

  pub record IsAt (m : Machine api) (t b : Option ℕ) : Type 0 where
    pub held : Holds m.stack (waiting t b)
    pub times : IsTimes t
    pub calm : IsCalm b m.ch

  operate-times :
      (c : ℕ) (m : Machine api)
      → is_times c ≡ true
      → operate api c m ≡ (rank api is_weak c m >>= λ n. some (go n))
  unfolding operate
  operate-times c m h = elim (Bool-cases (c == b'*')) [
    | inl star ↦ rw (same_index c b'*' star) refl
    | inr slash ↦ rw (same_index c b'/' (ground (arith, slash, h))) refl
  ]

  operate-plus :
      (c : ℕ) (m : Machine api)
      → is_plus c ≡ true
      → operate api c m ≡ (rank api is_open c m >>= λ n. some (go n))
  unfolding operate
  operate-plus c m h = elim (Bool-cases (c == b'+')) [
    | inl plus ↦ rw (same_index c b'+' plus) refl
    | inr minus ↦ rw (same_index c b'-' (ground (arith, minus, h))) refl
  ]

  -- A machine after an operator of a product, from what the loops did.
  after_times :
      (c : ℕ) (m : Machine api) (t b : Option ℕ) (l : ℤ)
      → is_times c ≡ true
      → IsCalm b l
      → (n : Machine api) × (rank api is_weak c m ≡ some n)
        × Holds n.stack (waiting (some c) b)
        × (n.ch ≡ l)
        × (n.out ≡ m.out ++ shown t)
      → (n : Machine api) × (operate api c m ≡ some (go n))
        × IsAt n (some c) b
        × (n.out ≡ m.out ++ shown t)
  after_times c m t b l h calm (n, runs, held, ch, out) = (
    n,
    operate-times c m h ∙ rw runs refl,
    record { held = held; times = h; calm = subst (IsCalm b) (sym ch) calm },
    out,
  )

  -- `*` or `/` prints an operator of the same rank that waits, and waits itself.
  pub times_step :
      (c : ℕ) (m : Machine api) (t b : Option ℕ)
      → 2 < cap
      → is_times c ≡ true
      → IsAt m t b
      → (n : Machine api) × (operate api c m ≡ some (go n))
        × IsAt n (some c) b
        × (n.out ≡ m.out ++ shown t)
  times_step c m none none room h at = after_times c m none none m.ch h at.calm (
      rank_ending api is_weak c m [] [] [] m.ch at.held (omega (arith, room)) refl refl refl
        at.calm)
  times_step c m (some t) none room h at =
      let strong : is_weak (pos t) ≡ false = ground (arith, at.times) in
      after_times c m (some t) none (pos t) h strong (
        rank_ending api is_weak c m (pos t ∷ []) (pos t ∷ []) [] (pos t) at.held
          (omega (arith, room)) (rw strong refl) (rw strong refl) (rw strong refl) strong)
  times_step c m none (some b) room h at =
      let weak : is_weak (pos b) ≡ true = ground (arith, at.calm.1) in
      let shut : is_open (pos b) ≡ false = ground (arith, at.calm.1) in
      after_times c m none (some b) (pos b) h (shut, at.calm.1)
        (rank_stopping api is_weak c m (pos b ∷ []) [] [] (pos b) at.held (omega (arith, room))
          (rw weak refl) (rw weak refl) (rw weak refl) (omega (arith, room)) weak)
  times_step c m (some t) (some b) room h at =
      let strong : is_weak (pos t) ≡ false = ground (arith, at.times) in
      let weak : is_weak (pos b) ≡ true = ground (arith, at.calm.1) in
      let shut : is_open (pos b) ≡ false = ground (arith, at.calm.1) in
      after_times c m (some t) (some b) (pos b) h (shut, at.calm.1)
        (rank_stopping api is_weak c m (pos t ∷ pos b ∷ []) (pos t ∷ []) [] (pos b) at.held
          (omega (arith, room)) (rw (strong, weak) refl) (rw (strong, weak) refl)
          (rw (strong, weak) refl) (omega (arith, room)) weak)

  after_plus :
      (c : ℕ) (m : Machine api) (p : List ℤ) (l : ℤ)
      → is_plus c ≡ true
      → is_open l ≡ false
      → (n : Machine api) × (rank api is_open c m ≡ some n)
        × Holds n.stack (pos c ∷ [])
        × (n.ch ≡ l)
        × (n.out ≡ m.out ++ p)
      → (n : Machine api) × (operate api c m ≡ some (go n))
        × IsAt n none (some c)
        × (n.out ≡ m.out ++ p)
  after_plus c m p l h shut (n, runs, held, ch, out) = (
    n,
    operate-plus c m h ∙ rw runs refl,
    record { held = held; times = tt; calm = (ap is_open ch ∙ shut, h) },
    out,
  )

  pub calm-shut : (b : Option ℕ) (ch : ℤ) → IsCalm b ch → is_open ch ≡ false
  calm-shut none ch calm = ground (arith, calm)
  calm-shut (some b) ch calm = calm.0

  -- `+` or `-` prints all operators that wait, and waits itself.
  pub plus_step :
      (c : ℕ) (m : Machine api) (t b : Option ℕ)
      → 2 < cap
      → is_plus c ≡ true
      → IsAt m t b
      → (n : Machine api) × (operate api c m ≡ some (go n))
        × IsAt n none (some c)
        × (n.out ≡ m.out ++ waiting t b)
  plus_step c m none none room h at =
      let shut = calm-shut none m.ch at.calm in
      after_plus c m [] m.ch h shut (
        rank_ending api is_open c m [] [] [] m.ch at.held (omega (arith, room)) refl refl refl shut)
  plus_step c m (some t) none room h at =
      let shut : is_open (pos t) ≡ false = ground (arith, at.times) in
      after_plus c m (pos t ∷ []) (pos t) h shut (
        rank_ending api is_open c m (pos t ∷ []) (pos t ∷ []) [] (pos t) at.held
          (omega (arith, room)) (rw shut refl) (rw shut refl) (rw shut refl) shut)
  plus_step c m none (some b) room h at =
      let shut : is_open (pos b) ≡ false = ground (arith, at.calm.1) in
      after_plus c m (pos b ∷ []) (pos b) h shut (
        rank_ending api is_open c m (pos b ∷ []) (pos b ∷ []) [] (pos b) at.held
          (omega (arith, room)) (rw shut refl) (rw shut refl) (rw shut refl) shut)
  plus_step c m (some t) (some b) room h at =
      let shut_t : is_open (pos t) ≡ false = ground (arith, at.times) in
      let shut : is_open (pos b) ≡ false = ground (arith, at.calm.1) in
      after_plus c m (pos t ∷ pos b ∷ []) (pos b) h shut (
        rank_ending api is_open c m (pos t ∷ pos b ∷ []) (pos t ∷ pos b ∷ []) [] (pos b) at.held
          (omega (arith, room)) (rw (shut_t, shut) refl) (rw (shut_t, shut) refl)
          (rw (shut_t, shut) refl) shut)
