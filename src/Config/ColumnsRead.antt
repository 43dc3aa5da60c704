-- ===== src/Config/ColumnsRead.antt =====
-- `read_config` reads back the columns of a file, but for lines of nothing but separators.
use code_snippet.Prelude.{
  ℕ, zero, suc, ◌+◌, ◌≡◌, ◌≢◌, ◌<◌, refl, ap, sym, ◌∙◌, append_assoc, false, none, some, List, [],
  ◌∷◌, ◌++◌, map, pos, length, length-append, All, arith,
}
use code_snippet.Prelude.Strings.{Str, fields}
use code_snippet.Config.{newline, is_start_blank, is_blank_line}
use code_snippet.Config.Lines.{
  IsInLine, AreBlank, IsTrimmed, fgets-line, strip_start-text, strip_end-AreBlank,
  strip_end-IsTrimmed, append-AreBlank,
}
use code_snippet.Config.Columns.{is_column_sep, is_end_blank, read_line, read_from, read_config}

-- Columns with separators between them.
abbrev pub join : Str → List Str → Str
join f [] = f
join f (g ∷ gs) = f ++ (b';' ∷ join g gs)

abbrev pub HasNoSep : Str → Type 0
HasNoSep s = All (λ c. c ≢ b';') s

fields-HasNoSep : (s : Str) → HasNoSep s → fields is_column_sep s ≡ s ∷ []
fields-HasNoSep [] h = refl
fields-HasNoSep (c ∷ cs) h =
    let other : is_column_sep c ≡ false = ground (arith, h.0) in
    rw (other, fields-HasNoSep cs h.1) refl

fields-append :
    (s rest : Str)
    → HasNoSep s
    → fields is_column_sep (s ++ (b';' ∷ rest)) ≡ s ∷ fields is_column_sep rest
fields-append [] rest h = refl
fields-append (c ∷ cs) rest h =
    let other : is_column_sep c ≡ false = ground (arith, h.0) in
    rw (other, fields-append cs rest h.1) refl

pub fields-join :
    (f : Str) (fs : List Str)
    → HasNoSep f
    → All HasNoSep fs
    → fields is_column_sep (join f fs) ≡ f ∷ fs
fields-join f [] h hs = fields-HasNoSep f h
fields-join f (g ∷ gs) h hs =
    fields-append f (join g gs) h ∙ ap (λ l. f ∷ l) (fields-join g gs hs.0 hs.1)

-- A line of columns, of which the first begins with `first`.
pub record Row : Type 0 where
  pub lead : Str
  pub first : ℕ
  pub others : Str
  pub columns : List Str
  pub trail : Str

abbrev body : Row → Str
body r = join (r.first ∷ r.others) r.columns

abbrev pub text : Row → Str
text r = r.lead ++ (body r ++ r.trail)

abbrev pub columns_of : Row → List Str
columns_of r = (r.first ∷ r.others) ∷ r.columns

-- `ends` says that the last column is not empty and ends with no blank.
pub record IsWellFormed (r : Row) : Type 0 where
  pub blank : AreBlank is_start_blank r.lead
  pub begins : is_start_blank r.first ≡ false
  pub not_comment : is_blank_line (r.first ∷ []) ≡ false
  pub separate : HasNoSep (r.first ∷ r.others)
  pub all_separate : All HasNoSep r.columns
  pub ends : IsTrimmed is_end_blank (body r)
  pub trailing : AreBlank is_end_blank r.trail
  pub plain : IsInLine (text r)
  pub fits : length (text r) < 255

-- The first column without its first character.
abbrev tail_of : Str → List Str → Str
tail_of others [] = others
tail_of others (g ∷ gs) = others ++ (b';' ∷ join g gs)

body-cons : (c : ℕ) (others : Str) (gs : List Str) → join (c ∷ others) gs ≡ c ∷ tail_of others gs
body-cons c others [] = refl
body-cons c others (g ∷ gs) = refl

read_line-columns :
    (r : Row) → IsWellFormed r → read_line (text r ++ (newline ∷ [])) ≡ some (columns_of r ∷ [])
unfolding read_line
read_line-columns r w =
    let cs = tail_of r.others r.columns in
    let whole = body-cons r.first r.others r.columns in
    let plain : IsInLine (r.lead ++ (r.first ∷ (cs ++ r.trail))) = rw whole at w.plain in
    let trimmed : IsTrimmed is_end_blank (r.first ∷ cs) = rw whole at w.ends in
    let start =
      strip_start-text r.lead r.first (cs ++ r.trail) w.blank w.begins plain
      ∙ append_assoc (r.first ∷ cs) r.trail (newline ∷ []) in
    let stripped =
      strip_end-IsTrimmed is_end_blank r.first cs (r.trail ++ (newline ∷ [])) trimmed
        (append-AreBlank is_end_blank r.trail newline w.trailing refl) in
    let joined =
      ap (fields is_column_sep) (sym whole)
      ∙ fields-join (r.first ∷ r.others) r.columns w.separate w.all_separate in
    rw whole (rw (start, w.not_comment, stripped) (ap (λ fs. some (fs ∷ [])) joined))

read_turn :
    (fuel : ℕ) (s rest : Str) (printed later : List (List Str))
    → IsInLine s
    → length s < 255
    → read_line (s ++ (newline ∷ [])) ≡ some printed
    → read_from fuel rest ≡ some later
    → read_from (suc fuel) (s ++ (newline ∷ rest)) ≡ some (printed ++ later)
unfolding read_from
read_turn fuel [] rest printed later plain room e f =
    rw (fgets-line 255 [] rest room plain, e, f) refl
read_turn fuel (c ∷ cs) rest printed later plain room e f =
    rw (fgets-line 255 (c ∷ cs) rest room plain, e, f) refl

abbrev pub file : List Row → List ℕ
file [] = []
file (r ∷ rs) = text r ++ (newline ∷ file rs)

read_from-file :
    (rs : List Row) (fuel : ℕ)
    → All IsWellFormed rs
    → length (file rs) < fuel
    → read_from fuel (file rs) ≡ some (map columns_of rs)
unfolding read_from
read_from-file rs zero good enough = absurd (omega (arith, enough))
read_from-file [] (suc fuel) good enough = refl
read_from-file (r ∷ rs) (suc fuel) good enough =
    read_turn fuel (text r) (file rs) (columns_of r ∷ []) (map columns_of rs) good.0.plain
      good.0.fits (read_line-columns r good.0)
      (read_from-file rs fuel good.1
        (omega (arith, enough, length-append (text r) (newline ∷ file rs))))

length-columns : (rs : List Row) → length (map columns_of rs) ≡ length rs
length-columns [] = refl
length-columns (r ∷ rs) = ap suc (length-columns rs)

-- A file of lines of columns is read to its end: the result is the number of lines, and the columns of
-- each line are printed as they were joined. A column holds no separator, the first begins with a
-- character that begins a line, the last is not empty and ends with no blank; others may be empty.
pub read_config-file :
    (rs : List Row)
    → All IsWellFormed rs
    → read_config (some (file rs)) ≡ some (pos (length rs), map columns_of rs)
unfolding read_config
read_config-file rs good =
    rw (read_from-file rs (length (file rs) + 1) good (omega arith), length-columns rs) refl

overrun_turn :
    (fuel : ℕ) (s rest : Str)
    → IsInLine s
    → length s < 255
    → read_line (s ++ (newline ∷ [])) ≡ none
    → read_from (suc fuel) (s ++ (newline ∷ rest)) ≡ none
unfolding read_from
overrun_turn fuel [] rest plain room e = rw (fgets-line 255 [] rest room plain, e) refl
overrun_turn fuel (c ∷ cs) rest plain room e = rw (fgets-line 255 (c ∷ cs) rest room plain, e) refl

read_line-separators :
    (lead trail : Str)
    → AreBlank is_start_blank lead
    → AreBlank is_end_blank trail
    → IsInLine (lead ++ (b';' ∷ trail))
    → read_line ((lead ++ (b';' ∷ trail)) ++ (newline ∷ [])) ≡ none
unfolding read_line
read_line-separators lead trail blank ends plain =
    let gone =
      strip_end-AreBlank is_end_blank (b';' ∷ (trail ++ (newline ∷ [])))
        (refl, append-AreBlank is_end_blank trail newline ends refl) in
    rw (strip_start-text lead b';' trail blank refl plain, gone) refl

-- A file that begins with a line of a separator, and behind it nothing but separators and blanks:
-- the loop that strips the end passes the start of the buffer.
pub read_config-overrun :
    (lead trail rest : Str)
    → AreBlank is_start_blank lead
    → AreBlank is_end_blank trail
    → IsInLine (lead ++ (b';' ∷ trail))
    → length (lead ++ (b';' ∷ trail)) < 255
    → read_config (some ((lead ++ (b';' ∷ trail)) ++ (newline ∷ rest))) ≡ none
unfolding read_config
read_config-overrun lead trail rest blank ends plain room =
    let line = lead ++ (b';' ∷ trail) in
    let size = length (line ++ (newline ∷ rest)) in
    let one_more : size + 1 ≡ suc size = omega arith in
    let turn =
      overrun_turn size line rest plain room (read_line-separators lead trail blank ends plain) in
    rw (one_more, turn) refl
