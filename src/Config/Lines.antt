-- ===== src/Config/Lines.antt =====
-- What the reading of a line does to a line without a zero that ends with a newline.
use code_snippet.Prelude.{
  ℕ, zero, suc, ◌≡◌, ◌≢◌, ◌<◌, refl, ap, ◌∙◌, append_assoc, Bool, true, false, none, some, List, [],
  ◌∷◌, ◌++◌, length, All, arith, ◌==◌,
}
use code_snippet.Prelude.Strings.{Str}
use code_snippet.Config.{newline, fgets, string_in, is_start_blank, strip_start, strip_end}

-- Characters that stand in one line, and in one string.
abbrev pub IsInLine : Str → Type 0
IsInLine s = All (λ c. (c ≢ newline) × (c ≢ 0)) s

abbrev pub AreBlank : (ℕ → Bool) → Str → Type 0
AreBlank is_blank s = All (λ c. is_blank c ≡ true) s

-- No blank ends the string.
abbrev pub IsTrimmed : (ℕ → Bool) → Str → Type 0
IsTrimmed is_blank [] = Unit
IsTrimmed is_blank (c ∷ []) = is_blank c ≡ false
IsTrimmed is_blank (c ∷ d ∷ cs) = IsTrimmed is_blank (d ∷ cs)

pub fgets-line :
    (room : ℕ) (s rest : List ℕ)
    → length s < room
    → IsInLine s
    → fgets room (s ++ (newline ∷ rest)) ≡ (s ++ (newline ∷ []), rest)
unfolding fgets
fgets-line zero s rest h plain = absurd (omega (arith, h))
fgets-line (suc room) [] rest h plain = refl
fgets-line (suc room) (c ∷ cs) rest h plain =
    let other : (c == newline) ≡ false = ground (arith, plain.0.0) in
    rw (other, fgets-line room cs rest (omega (arith, h)) plain.1) refl

pub string_in-line : (s : Str) → IsInLine s → string_in (s ++ (newline ∷ [])) ≡ s ++ (newline ∷ [])
unfolding string_in
string_in-line [] plain = refl
string_in-line (c ∷ cs) plain =
    let other : (c == 0) ≡ false = ground (arith, plain.0.1) in
    rw (other, string_in-line cs plain.1) refl

pub strip_start-AreBlank :
    (lead s : Str) → AreBlank is_start_blank lead → strip_start (lead ++ s) ≡ strip_start s
unfolding strip_start
strip_start-AreBlank [] s blank = refl
strip_start-AreBlank (c ∷ cs) s blank = rw blank.0 (strip_start-AreBlank cs s blank.1)

pub strip_end-AreBlank :
    (is_blank : ℕ → Bool) (trail : Str) → AreBlank is_blank trail → strip_end is_blank trail ≡ none
unfolding strip_end
strip_end-AreBlank is_blank [] blank = refl
strip_end-AreBlank is_blank (c ∷ cs) blank =
    rw (strip_end-AreBlank is_blank cs blank.1, blank.0) refl

pub strip_end-IsTrimmed :
    (is_blank : ℕ → Bool) (c : ℕ) (cs trail : Str)
    → IsTrimmed is_blank (c ∷ cs)
    → AreBlank is_blank trail
    → strip_end is_blank ((c ∷ cs) ++ trail) ≡ some (c ∷ cs)
unfolding strip_end
strip_end-IsTrimmed is_blank c [] trail trimmed blank =
    rw (strip_end-AreBlank is_blank trail blank, trimmed) refl
strip_end-IsTrimmed is_blank c (d ∷ ds) trail trimmed blank =
    rw (strip_end-IsTrimmed is_blank d ds trail trimmed blank) refl

pub strip_start-keeps :
    (c : ℕ) (cs : Str) → is_start_blank c ≡ false → strip_start (c ∷ cs) ≡ c ∷ cs
unfolding strip_start
strip_start-keeps c cs h = rw h refl

pub append-AreBlank :
    (is_blank : ℕ → Bool) (trail : Str) (c : ℕ)
    → AreBlank is_blank trail
    → is_blank c ≡ true
    → AreBlank is_blank (trail ++ (c ∷ []))
append-AreBlank is_blank [] c h e = (e, tt)
append-AreBlank is_blank (d ∷ ds) c h e = (h.0, append-AreBlank is_blank ds c h.1 e)

-- A line up to the first character behind its blanks.
pub strip_start-text :
    (lead : Str) (first : ℕ) (others : Str)
    → AreBlank is_start_blank lead
    → is_start_blank first ≡ false
    → IsInLine (lead ++ (first ∷ others))
    → strip_start (string_in ((lead ++ (first ∷ others)) ++ (newline ∷ [])))
      ≡ first ∷ (others ++ (newline ∷ []))
strip_start-text lead first others blank begins plain =
    ap strip_start (
      string_in-line (lead ++ (first ∷ others)) plain
      ∙ append_assoc lead (first ∷ others) (newline ∷ []))
    ∙ strip_start-AreBlank lead ((first ∷ others) ++ (newline ∷ [])) blank
    ∙ strip_start-keeps first (others ++ (newline ∷ [])) begins

-- A line of blanks alone.
pub strip_start-empty :
    (lead : Str)
    → AreBlank is_start_blank lead
    → IsInLine lead
    → strip_start (string_in (lead ++ (newline ∷ []))) ≡ newline ∷ []
strip_start-empty lead blank plain =
    ap strip_start (string_in-line lead plain)
    ∙ strip_start-AreBlank lead (newline ∷ []) blank
    ∙ strip_start-keeps newline [] refl
