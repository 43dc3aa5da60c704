-- ===== src/Convert/Correct.antt =====
-- The converter prints the postfix notation of an expression without brackets.
use code_snippet.Prelude.{
  ℕ, zero, suc, ◌+◌, ◌≡◌, ◌≤◌, ◌<◌, refl, ap, sym, ◌∙◌, append_assoc, append-nil, true, false, ◌||◌,
  Option, none, some, List, [], ◌∷◌, ◌++◌, map, ℤ, pos, length, length-append, All, arith,
}
use mathlib.Core.List.{map-append}
use code_snippet.Stack.Api.{StackApi}
use code_snippet.Postfix.{skip}
use code_snippet.Convert.{
  next_token, getop, is_open, is_weak, Machine, go, operate, converted, finish, loop,
}
use code_snippet.Convert.Steps.{pop_until-eq, printed, last_popped}
use code_snippet.Convert.Turns.{
  Ends, getop-word, operator-plain, waiting, shown, IsAt, times_step, plus_step, calm-shut,
}
use code_snippet.Convert.Notation.{
  Word, IsWord, is_times, is_plus, Product, Sum, AreFactors, IsProduct, IsSum, factors_text,
  product_text, terms_text, sum_text, factors_postfix, product_postfix, terms_postfix, sum_postfix,
}

four_lists : (a b c d : List ℤ) → a ++ b ++ c ++ d ≡ a ++ (b ++ (c ++ d))
four_lists a b c d = rw (append_assoc (a ++ b) c d, append_assoc a b (c ++ d)) refl

waiting-shown : (t : Option ℕ) (c : ℕ) → waiting t (some c) ≡ shown t ++ (pos c ∷ [])
waiting-shown none c = refl
waiting-shown (some t) c = refl

waiting-none : (t : Option ℕ) → waiting t none ≡ shown t
waiting-none none = refl
waiting-none (some t) = refl

shown_next :
    (a t w : List ℤ) (c : ℤ) (d : List ℤ) → w ≡ t ++ (c ∷ []) → a ++ (w ++ d) ≡ a ++ t ++ (c ∷ d)
shown_next a t w c d e =
    rw e (ap (λ l. a ++ l) (append_assoc t (c ∷ []) d) ∙ sym (append_assoc a t (c ∷ d)))

module _ (api : StackApi) where
  open api use {State, Holds, cap}

  pub word_turn :
      (fuel : ℕ) (w rest : List ℕ) (m : Machine api)
      → IsWord w
      → Ends rest
      → loop api (suc fuel) (w ++ rest) m
        ≡ loop api fuel rest (record m { out = m.out ++ map pos w })
  unfolding loop
  word_turn fuel w rest m plain ends = rw (getop-word w rest plain ends) refl

  operator_turn :
      (fuel c : ℕ) (rest : List ℕ) (m n : Machine api)
      → (is_times c || is_plus c) ≡ true
      → operate api c m ≡ some (go n)
      → loop api (suc fuel) (c ∷ rest) m ≡ loop api fuel rest n
  unfolding loop
  operator_turn fuel c rest m n h runs = rw (operator-plain c rest h, runs) refl

  -- Printing a word leaves what waits.
  print-IsAt :
      (m : Machine api) (t b : Option ℕ) (w : List ℤ)
      → IsAt api m t b
      → IsAt api (record m { out = m.out ++ w }) t b
  print-IsAt m t b w at = record { held = at.held; times = at.times; calm = at.calm }

  -- The loop from `m` reads `whole` up to `rest`, and goes on from there with `fuel'`, `n` and `t` and
  -- `b` on the stack. What is printed by then, and the operator `t` after it, is `shows`.
  record Reads (fuel : ℕ) (whole rest : List ℕ) (m : Machine api) (b : Option ℕ) (shows : List ℤ)
      : Type 0 where
    fuel' : ℕ
    n : Machine api
    t : Option ℕ
    runs : loop api fuel whole m ≡ loop api fuel' rest n
    left : fuel + length rest ≤ fuel' + length whole
    at : IsAt api n t b
    out : n.out ++ shown t ≡ shows

  turn-Reads :
      (fuel k : ℕ) (whole whole' rest : List ℕ) (m n : Machine api) (b : Option ℕ)
      (shows shows' : List ℤ)
      → loop api fuel whole m ≡ loop api k whole' n
      → fuel + length whole' ≤ k + length whole
      → shows' ≡ shows
      → Reads k whole' rest n b shows'
      → Reads fuel whole rest m b shows
  turn-Reads fuel k whole whole' rest m n b shows shows' e less same r = record {
    fuel' = r.fuel';
    n = r.n;
    t = r.t;
    runs = e ∙ r.runs;
    left = omega (arith, less, r.left);
    at = r.at;
    out = r.out ∙ same;
  }

  factors-Ends :
      (fs : List (ℕ × Word)) (rest : List ℕ)
      → AreFactors fs
      → Ends rest
      → Ends (factors_text fs ++ rest)
  factors-Ends [] rest plain ends = ends
  factors-Ends (f ∷ fs) rest plain ends = (ground (arith, plain.0.0), ground (arith, plain.0.0))

  factors-Reads :
      (fs : List (ℕ × Word)) (fuel : ℕ) (rest : List ℕ) (m : Machine api) (t b : Option ℕ)
      → 2 < cap
      → AreFactors fs
      → Ends rest
      → length (factors_text fs) ≤ fuel
      → IsAt api m t b
      → Reads fuel
          (factors_text fs ++ rest)
          rest
          m
          b
          (m.out ++ (shown t ++ map pos (factors_postfix fs)))
  factors-Reads [] fuel rest m t b room plain ends enough at = record {
    fuel' = fuel;
    n = m;
    t = t;
    runs = refl;
    left = omega arith;
    at = at;
    out = ap (λ l. m.out ++ l) (sym (append-nil (shown t)));
  }
  factors-Reads (f ∷ fs) zero rest m t b room plain ends enough at = absurd (omega (arith, enough))
  factors-Reads (f ∷ fs) (suc zero) rest m t b room plain ends enough at =
      absurd (omega (arith, enough, plain.0.1.0, length-append f.1 (factors_text fs)))
  factors-Reads (f ∷ fs) (suc (suc k)) rest m t b room plain ends enough at =
      let c = f.0 in
      let w = f.1 in
      let long : 1 ≤ length w = plain.0.1.0 in
      let (n, runs, at', out) = times_step api c m t b room plain.0.0 at in
      let n' : Machine api = record n { out = n.out ++ map pos w } in
      let text' = factors_text fs ++ rest in
      turn-Reads (suc (suc k)) k _ text' rest m n' b _ _
        (ap (λ l. loop api (suc (suc k)) (c ∷ l) m) (append_assoc w (factors_text fs) rest)
          ∙ operator_turn (suc k) c (w ++ text') m n (ground (arith, plain.0.0)) runs
          ∙ word_turn k w text' n plain.0.1 (factors-Ends fs rest plain.1 ends))
        (omega (
          arith,
          long,
          length-append w (factors_text fs),
          length-append (w ++ factors_text fs) rest,
          length-append (factors_text fs) rest,
        ))
        (rw (out, map-append pos w (c ∷ factors_postfix fs))
          (four_lists m.out (shown t) (map pos w) (pos c ∷ map pos (factors_postfix fs))))
        (factors-Reads fs k rest n' (some c) b room plain.1 ends
          (omega (arith, enough, long, length-append w (factors_text fs)))
          (print-IsAt n (some c) b (map pos w) at'))

  product-Reads :
      (p : Product) (fuel : ℕ) (rest : List ℕ) (m : Machine api) (b : Option ℕ)
      → 2 < cap
      → IsProduct p
      → Ends rest
      → length (product_text p) ≤ fuel
      → IsAt api m none b
      → Reads fuel (product_text p ++ rest) rest m b (m.out ++ map pos (product_postfix p))
  product-Reads p zero rest m b room plain ends enough at =
      absurd (omega (arith, enough, plain.0.0, length-append p.first (factors_text p.factors)))
  product-Reads p (suc k) rest m b room plain ends enough at =
      let w = p.first in
      let fs = p.factors in
      let n : Machine api = record m { out = m.out ++ map pos w } in
      let text' = factors_text fs ++ rest in
      turn-Reads (suc k) k _ text' rest m n b _ _
        (ap (λ l. loop api (suc k) l m) (append_assoc w (factors_text fs) rest)
          ∙ word_turn k w text' m plain.0 (factors-Ends fs rest plain.1 ends))
        (omega (
          arith,
          plain.0.0,
          length-append w (factors_text fs),
          length-append (w ++ factors_text fs) rest,
          length-append (factors_text fs) rest,
        ))
        (rw (map-append pos w (factors_postfix fs))
          (append_assoc m.out (map pos w) (map pos (factors_postfix fs))))
        (factors-Reads fs k rest n none b room plain.1 ends
          (omega (arith, enough, plain.0.0, length-append w (factors_text fs)))
          (print-IsAt m none b (map pos w) at))

  prints-waiting :
      (m : Machine api) (t b : Option ℕ)
      → IsAt api m t b
      → (printed is_open (waiting t b) ≡ waiting t b)
        × (is_open (last_popped is_open m.ch (waiting t b)) ≡ false)
        × (length (waiting t b) ≤ 2)
  prints-waiting m none none at = (refl, calm-shut api none m.ch at.calm, omega arith)
  prints-waiting m (some t) none at =
      let shut : is_open (pos t) ≡ false = ground (arith, at.times) in
      (rw shut refl, rw shut shut, omega arith)
  prints-waiting m none (some b) at =
      let shut : is_open (pos b) ≡ false = ground (arith, at.calm.1) in
      (rw shut refl, rw shut shut, omega arith)
  prints-waiting m (some t) (some b) at =
      let shut_t : is_open (pos t) ≡ false = ground (arith, at.times) in
      let shut : is_open (pos b) ≡ false = ground (arith, at.calm.1) in
      (rw (shut_t, shut) refl, rw (shut_t, shut) shut, omega arith)

  finish-converts :
      (m : Machine api) (t b : Option ℕ)
      → 2 < cap
      → IsAt api m t b
      → finish api m ≡ some (converted (m.out ++ waiting t b))
  unfolding finish
  finish-converts m t b room at =
      let (same, shut, short) = prints-waiting m t b at in
      let (n, runs, held, ch, out) =
        pop_until-eq api (cap + 1) is_open m (waiting t b) at.held (omega (arith, room, short)) in
      rw (runs, ap is_open ch ∙ shut)
        (ap (λ o. some (converted o)) (out ∙ ap (λ w. m.out ++ w) same))

  ends_turn : (k : ℕ) (m : Machine api) → loop api (suc k) [] m ≡ finish api m
  unfolding loop getop skip next_token
  ends_turn k m = refl

  terms-Ends :
      (ts : List (ℕ × Product))
      → All (λ t. (is_plus t.0 ≡ true) × IsProduct t.1) ts
      → Ends (terms_text ts)
  terms-Ends [] plain = tt
  terms-Ends (t ∷ ts) plain = (ground (arith, plain.0.0), ground (arith, plain.0.0))

  terms-converts :
      (ts : List (ℕ × Product)) (fuel : ℕ) (m : Machine api) (t b : Option ℕ)
      → 2 < cap
      → All (λ t. (is_plus t.0 ≡ true) × IsProduct t.1) ts
      → length (terms_text ts) < fuel
      → IsAt api m t b
      → loop api fuel (terms_text ts) m
        ≡ some (converted (m.out ++ (waiting t b ++ map pos (terms_postfix ts))))
  terms-converts ts zero m t b room plain enough at = absurd (omega (arith, enough))
  terms-converts [] (suc k) m t b room plain enough at =
      ends_turn k m
      ∙ finish-converts m t b room at
      ∙ ap (λ w. some (converted (m.out ++ w))) (sym (append-nil (waiting t b)))
  terms-converts (u ∷ us) (suc k) m t b room plain enough at =
      let c = u.0 in
      let p = u.1 in
      let (n, runs, at', out) = plus_step api c m t b room plain.0.0 at in
      let r =
        product-Reads p k (terms_text us) n (some c) room plain.0.1 (terms-Ends us plain.1)
          (omega (arith, enough, length-append (product_text p) (terms_text us))) at' in
      operator_turn k c (product_text p ++ terms_text us) m n (ground (arith, plain.0.0)) runs
      ∙ r.runs
      ∙ terms-converts us r.fuel' r.n r.t (some c) room plain.1
          (omega (arith, enough, r.left, length-append (product_text p) (terms_text us))) r.at
      ∙ ap (λ o. some (converted o))
          (shown_next r.n.out (shown r.t) (waiting r.t (some c)) (pos c)
              (map pos (terms_postfix us)) (waiting-shown r.t c)
            ∙ rw (r.out, out, map-append pos (product_postfix p) (c ∷ terms_postfix us))
                (four_lists m.out (waiting t b) (map pos (product_postfix p))
                  (pos c ∷ map pos (terms_postfix us))))

  -- A sum of products of words of at most seven letters, with a stack of room for three, nothing on the
  -- stack, and no bracket, plus or minus left in `ch`: on any fuel above the length of the text,
  -- the loop reads the text to its end and prints its postfix notation.
  pub loop-converts :
      (s : Sum) (fuel : ℕ) (m : Machine api)
      → 2 < cap
      → IsSum s
      → Holds m.stack []
      → is_weak m.ch ≡ false
      → length (sum_text s) < fuel
      → loop api fuel (sum_text s) m ≡ some (converted (m.out ++ map pos (sum_postfix s)))
  loop-converts s fuel m room plain held calm enough =
      let p = s.first in
      let ts = s.terms in
      let size = length-append (product_text p) (terms_text ts) in
      let r =
        product-Reads p fuel (terms_text ts) m none room plain.0 (terms-Ends ts plain.1)
          (omega (arith, enough, size)) (record { held = held; times = tt; calm = calm }) in
      r.runs
      ∙ terms-converts ts r.fuel' r.n r.t none room plain.1 (omega (arith, enough, r.left, size))
          r.at
      ∙ ap (λ o. some (converted o))
          (sym (append_assoc r.n.out (waiting r.t none) (map pos (terms_postfix ts)))
            ∙ rw (waiting-none r.t, r.out, map-append pos (product_postfix p) (terms_postfix ts))
                (append_assoc m.out (map pos (product_postfix p)) (map pos (terms_postfix ts))))
