-- ===== src/Config/Columns.antt =====
-- config_file/config2.c: `read_config`, which prints the columns of each line.
use code_snippet.Prelude.{
  ℕ, zero, suc, ◌+◌, Bool, ◌||◌, Option, none, some, List, [], ◌∷◌, ◌++◌, ℤ, pos, negsuc, ◌==◌,
  ◌>>=◌, if◌then◌else◌, length,
}
use code_snippet.Prelude.Strings.{Str, fields}
use code_snippet.Config.{newline, fgets, string_in, is_blank_line, strip_start, strip_end}

abbrev pub is_column_sep : ℕ → Bool
is_column_sep c = c == b';'

abbrev pub is_end_blank : ℕ → Bool
is_end_blank c = c == 32 || c == 9 || c == 13 || c == newline || c == b';'

-- The columns that a round of the loop prints, if any.
unfoldable pub read_line : List ℕ → Option (List (List Str))
read_line linebuf =
    let linep = strip_start (string_in linebuf) in
    if is_blank_line linep
    then some []
    else (do stripped ← strip_end is_end_blank linep; some (fields is_column_sep stripped ∷ []))

abbrev pub line_length_max : ℕ
line_length_max = 256

-- The loop on fuel; every round takes a character or more.
unfoldable pub read_from : ℕ → List ℕ → Option (List (List Str))
unfolding read_line
read_from zero cs = none
read_from (suc fuel) [] = some []
read_from (suc fuel) (c ∷ cs) = do
  let (linebuf, rest) = fgets 255 (c ∷ cs)
  printed ← read_line linebuf
  later ← read_from fuel rest
  some (printed ++ later)

-- The number of lines, and the columns of each; `none` is a file that cannot be opened.
unfoldable pub read_config : Option (List ℕ) → Option (ℤ × List (List Str))
unfolding read_from
read_config none = some (negsuc 0, [])
read_config (some content) = do
  rows ← read_from (length content + 1) content
  some (pos (length rows), rows)
