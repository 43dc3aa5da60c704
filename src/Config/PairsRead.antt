-- ===== src/Config/PairsRead.antt =====
-- `parse_config` reads back the keys and values of a file.
use code_snippet.Prelude.{
  ℕ, zero, suc, ◌+◌, ◌≡◌, ◌≢◌, ◌<◌, refl, ◌∙◌, append_assoc, false, Option, none, some, List, [],
  ◌∷◌, ◌++◌, pos, length, length-append, All, arith, ◌==◌,
}
use code_snippet.Prelude.Strings.{Str}
use code_snippet.Config.{newline, string_in, is_start_blank, is_blank_line, strip_start}
use code_snippet.Config.Lines.{
  IsInLine, AreBlank, IsTrimmed, fgets-line, strip_start-text, strip_start-empty,
  strip_end-IsTrimmed, append-AreBlank,
}
use code_snippet.Config.Pairs.{separator, is_end_blank, cut, parse_line, parse_from, parse_config}

-- The lines of a file: a key and a value, a comment, nothing, and a text without a separator. All
-- may begin with blanks (`lead`), and those with a text may end with blanks (`trail`).
pub data Line : Type 0 where
  entry : (lead : Str) → (first : ℕ) → (key value trail : Str) → Line
  comment : (lead body : Str) → Line
  empty : (lead : Str) → Line
  words : (lead : Str) → (first : ℕ) → (others trail : Str) → Line

abbrev pub text : Line → Str
text (entry lead first key value trail) = lead ++ ((first ∷ (key ++ (separator ∷ value))) ++ trail)
text (comment lead body) = lead ++ (b'#' ∷ body)
text (empty lead) = lead
text (words lead first others trail) = lead ++ ((first ∷ others) ++ trail)

abbrev pub pairs : Line → List (Str × Str)
pairs (entry lead first key value trail) = (first ∷ key, value) ∷ []
pairs (comment lead body) = []
pairs (empty lead) = []
pairs (words lead first others trail) = []

abbrev pub Begins : ℕ → Type 0
Begins c = (is_start_blank c ≡ false) × (is_blank_line (c ∷ []) ≡ false)

abbrev pub HasNoSeparator : Str → Type 0
HasNoSeparator s = All (λ c. c ≢ separator) s

abbrev pub IsWellFormed : Line → Type 0
IsWellFormed (entry lead first key value trail) =
    AreBlank is_start_blank lead
    × Begins first
    × HasNoSeparator (first ∷ key)
    × IsTrimmed is_end_blank value
    × AreBlank is_end_blank trail
IsWellFormed (comment lead body) = AreBlank is_start_blank lead
IsWellFormed (empty lead) = AreBlank is_start_blank lead
IsWellFormed (words lead first others trail) =
    AreBlank is_start_blank lead
    × Begins first
    × HasNoSeparator (first ∷ others)
    × IsTrimmed is_end_blank (first ∷ others)
    × AreBlank is_end_blank trail

-- A line that the buffer has room for.
abbrev pub Fits : Line → Type 0
Fits l = IsInLine (text l) × (length (text l) < 511)

cut-separator :
    (key value : Str) → HasNoSeparator key → cut (key ++ (separator ∷ value)) ≡ some (key, value)
unfolding cut
cut-separator [] value h = refl
cut-separator (c ∷ cs) value h =
    let other : (c == separator) ≡ false = ground (arith, h.0) in
    rw (other, cut-separator cs value h.1) refl

cut-HasNoSeparator : (s : Str) → HasNoSeparator s → cut s ≡ none
unfolding cut
cut-HasNoSeparator [] h = refl
cut-HasNoSeparator (c ∷ cs) h =
    let other : (c == separator) ≡ false = ground (arith, h.0) in
    rw (other, cut-HasNoSeparator cs h.1) refl

value-IsTrimmed :
    (c : ℕ) (key value : Str)
    → IsTrimmed is_end_blank value
    → IsTrimmed is_end_blank (c ∷ (key ++ (separator ∷ value)))
value-IsTrimmed c [] [] h = refl
value-IsTrimmed c [] (v ∷ vs) h = h
value-IsTrimmed c (d ∷ ds) value h = value-IsTrimmed d ds value h

-- A line with a text, up to where it is cut.
parse_line-text :
    (lead : Str) (first : ℕ) (others trail : Str)
    → AreBlank is_start_blank lead
    → Begins first
    → IsTrimmed is_end_blank (first ∷ others)
    → AreBlank is_end_blank trail
    → IsInLine (lead ++ ((first ∷ others) ++ trail))
    → parse_line ((lead ++ ((first ∷ others) ++ trail)) ++ (newline ∷ []))
      ≡ some (elim (cut (first ∷ others)) [ none ↦ [] | some pair ↦ pair ∷ [] ])
unfolding parse_line
parse_line-text lead first others trail blank begins trimmed ends plain =
    let start : strip_start (string_in ((lead ++ ((first ∷ others) ++ trail)) ++ (newline ∷ [])))
        ≡ (first ∷ others) ++ (trail ++ (newline ∷ [])) =
      strip_start-text lead first (others ++ trail) blank begins.0 plain
      ∙ append_assoc (first ∷ others) trail (newline ∷ []) in
    let stripped =
      strip_end-IsTrimmed is_end_blank first others (trail ++ (newline ∷ [])) trimmed
        (append-AreBlank is_end_blank trail newline ends refl) in
    rw (start, begins.1, stripped) (called (cut (first ∷ others)))
  where
    called :
        (o : Option (Str × Str))
        → elim o [ none ↦ some [] | some pair ↦ some (pair ∷ []) ]
          ≡ some (elim o [ none ↦ [] | some pair ↦ pair ∷ [] ])
    called none = refl
    called (some pair) = refl

parse_line-pairs :
    (l : Line)
    → IsWellFormed l
    → IsInLine (text l)
    → parse_line (text l ++ (newline ∷ [])) ≡ some (pairs l)
unfolding parse_line
parse_line-pairs (entry lead first key value trail) (blank, begins, none_left, trimmed, ends)
      plain =
    parse_line-text lead first (key ++ (separator ∷ value)) trail blank begins
      (value-IsTrimmed first key value trimmed) ends plain
    ∙ rw (cut-separator (first ∷ key) value none_left) refl
parse_line-pairs (comment lead body) blank plain =
    rw (strip_start-text lead b'#' body blank refl plain) refl
parse_line-pairs (empty lead) blank plain = rw (strip_start-empty lead blank plain) refl
parse_line-pairs (words lead first others trail) (blank, begins, none_left, trimmed, ends) plain =
    parse_line-text lead first others trail blank begins trimmed ends plain
    ∙ rw (cut-HasNoSeparator (first ∷ others) none_left) refl

-- One round of the loop.
parse_turn :
    (fuel : ℕ) (s rest : Str) (calls later : List (Str × Str))
    → IsInLine s
    → length s < 511
    → parse_line (s ++ (newline ∷ [])) ≡ some calls
    → parse_from fuel rest ≡ some later
    → parse_from (suc fuel) (s ++ (newline ∷ rest)) ≡ some (calls ++ later)
unfolding parse_from
parse_turn fuel [] rest calls later plain room e f =
    rw (fgets-line 511 [] rest room plain, e, f) refl
parse_turn fuel (c ∷ cs) rest calls later plain room e f =
    rw (fgets-line 511 (c ∷ cs) rest room plain, e, f) refl

abbrev pub file : List Line → List ℕ
file [] = []
file (l ∷ ls) = text l ++ (newline ∷ file ls)

abbrev pub all_pairs : List Line → List (Str × Str)
all_pairs [] = []
all_pairs (l ∷ ls) = pairs l ++ all_pairs ls

parse_from-file :
    (ls : List Line) (fuel : ℕ)
    → All (λ l. IsWellFormed l × Fits l) ls
    → length (file ls) < fuel
    → parse_from fuel (file ls) ≡ some (all_pairs ls)
unfolding parse_from
parse_from-file ls zero good enough = absurd (omega (arith, enough))
parse_from-file [] (suc fuel) good enough = refl
parse_from-file (l ∷ ls) (suc fuel) good enough =
    parse_turn fuel (text l) (file ls) (pairs l) (all_pairs ls) good.0.1.0 good.0.1.1
      (parse_line-pairs l good.0.0 good.0.1.0)
      (parse_from-file ls fuel good.1
        (omega (arith, enough, length-append (text l) (newline ∷ file ls))))

-- A file of entries, comments, empty lines and lines without a separator, with blanks around them,
-- each of at most 510 characters and ended by a newline: the loop comes to the end of the file, the status is 0,
-- and the handler gets the key and the value of every entry, in their order, and nothing else. A key holds
-- no separator and begins with a character that begins a line; a value may hold separators, and
-- does not end with a blank.
pub parse_config-file :
    (ls : List Line)
    → All (λ l. IsWellFormed l × Fits l) ls
    → parse_config (some (file ls)) ≡ some (pos 0, all_pairs ls)
unfolding parse_config
parse_config-file ls good = rw (parse_from-file ls (length (file ls) + 1) good (omega arith)) refl
