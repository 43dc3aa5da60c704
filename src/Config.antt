-- ===== src/Config.antt =====
-- config_file/config1.c (Pairs) and config_file/config2.c (Columns): configuration files read line
-- by line. A file is the list of its characters; both programs share what they do to a line.
pub mod Pairs
pub mod Columns
pub mod Lines
pub mod PairsRead
pub mod ColumnsRead
mod Tests
use code_snippet.Prelude.{
  ℕ, zero, suc, Bool, true, false, ◌||◌, Option, none, some, List, [], ◌∷◌, ◌==◌, if◌then◌else◌,
}
use code_snippet.Prelude.Strings.{Str}

abbrev pub newline : ℕ
newline = 10

-- `fgets` where the buffer has room for some more characters before the terminating zero.
unfoldable pub fgets : (room : ℕ) → List ℕ → List ℕ × List ℕ
fgets zero cs = ([], cs)
fgets (suc room) [] = ([], [])
fgets (suc room) (c ∷ cs) =
    let (line, rest) = fgets room cs in if c == newline then (c ∷ [], cs) else (c ∷ line, rest)

-- The string in a buffer ends at its first zero.
unfoldable pub string_in : List ℕ → Str
string_in [] = []
string_in (c ∷ cs) = if c == 0 then [] else c ∷ string_in cs

abbrev pub is_start_blank : ℕ → Bool
is_start_blank c = c == 32 || c == 9

-- `IS_BLANK_LINE` of the first character behind the blanks, which may be the terminating zero.
abbrev pub is_blank_line : Str → Bool
is_blank_line [] = false
is_blank_line (c ∷ cs) = c == 13 || c == newline || c == b'#'

unfoldable pub strip_start : Str → Str
strip_start [] = []
strip_start (c ∷ cs) = if is_start_blank c then strip_start cs else c ∷ cs

-- The loop that strips the end. Where all characters are stripped it runs on, over the blanks that
-- may stand before `linep`, and reads before the start of the buffer.
unfoldable pub strip_end : (is_end_blank : ℕ → Bool) → Str → Option Str
strip_end is_end_blank [] = none
strip_end is_end_blank (c ∷ cs) = elim (strip_end is_end_blank cs) [
  | none ↦ if is_end_blank c then none else some (c ∷ [])
  | some kept ↦ some (c ∷ kept)
]
