-- ===== src/Convert/Notation.antt =====
-- Sums of products of words: their infix text, and their postfix notation.
use code_snippet.Prelude.{ℕ, ◌≡◌, ◌≤◌, Bool, true, ◌||◌, List, [], ◌∷◌, ◌++◌, ◌==◌, length, All}
use code_snippet.Convert.{is_alpha}

abbrev pub Word : Type 0
Word = List ℕ

-- At most the seven letters that the buffer of `getop` has room for.
abbrev pub IsWord : Word → Type 0
IsWord w = (1 ≤ length w) × (length w ≤ 7) × All (λ c. is_alpha c ≡ true) w

abbrev pub is_times : ℕ → Bool
is_times c = c == b'*' || c == b'/'

abbrev pub is_plus : ℕ → Bool
is_plus c = c == b'+' || c == b'-'

-- A word, and the factors after it with their operators.
pub record Product : Type 0 where
  pub first : Word
  pub factors : List (ℕ × Word)

-- A product, and the terms after it with their operators.
pub record Sum : Type 0 where
  pub first : Product
  pub terms : List (ℕ × Product)

abbrev pub AreFactors : List (ℕ × Word) → Type 0
AreFactors fs = All (λ f. (is_times f.0 ≡ true) × IsWord f.1) fs

abbrev pub IsProduct : Product → Type 0
IsProduct p = IsWord p.first × AreFactors p.factors

abbrev pub IsSum : Sum → Type 0
IsSum s = IsProduct s.first × All (λ t. (is_plus t.0 ≡ true) × IsProduct t.1) s.terms

abbrev pub factors_text : List (ℕ × Word) → List ℕ
factors_text [] = []
factors_text (f ∷ fs) = f.0 ∷ (f.1 ++ factors_text fs)

abbrev pub product_text : Product → List ℕ
product_text p = p.first ++ factors_text p.factors

abbrev pub terms_text : List (ℕ × Product) → List ℕ
terms_text [] = []
terms_text (t ∷ ts) = t.0 ∷ (product_text t.1 ++ terms_text ts)

abbrev pub sum_text : Sum → List ℕ
sum_text s = product_text s.first ++ terms_text s.terms

-- In postfix notation an operator comes behind its second operand.
abbrev pub factors_postfix : List (ℕ × Word) → List ℕ
factors_postfix [] = []
factors_postfix (f ∷ fs) = f.1 ++ (f.0 ∷ factors_postfix fs)

abbrev pub product_postfix : Product → List ℕ
product_postfix p = p.first ++ factors_postfix p.factors

abbrev pub terms_postfix : List (ℕ × Product) → List ℕ
terms_postfix [] = []
terms_postfix (t ∷ ts) = product_postfix t.1 ++ (t.0 ∷ terms_postfix ts)

abbrev pub sum_postfix : Sum → List ℕ
sum_postfix s = product_postfix s.first ++ terms_postfix s.terms
