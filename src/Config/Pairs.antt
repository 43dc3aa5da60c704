-- ===== src/Config/Pairs.antt =====
-- config_file/config1.c: `parse_config`, whose handler gets a key and a value for each line.
use code_snippet.Prelude.{
  ℕ, zero, suc, Bool, true, false, ◌||◌, Option, none, some, List, [], ◌∷◌, ◌++◌, ℤ, pos, negsuc,
  ◌==◌, ◌>>=◌, if◌then◌else◌, length, drop, ◌+◌,
}
use code_snippet.Prelude.Strings.{Str}
use code_snippet.Config.{newline, fgets, string_in, is_blank_line, strip_start, strip_end}

abbrev pub separator : ℕ
separator = b'='

abbrev pub is_end_blank : ℕ → Bool
is_end_blank c = c == 32 || c == 9 || c == 13 || c == newline

-- The line cut at the first separator.
unfoldable pub cut : Str → Option (Str × Str)
cut [] = none
cut (c ∷ cs) =
    let rest = cut cs in
    if c == separator then some ([], cs) else (do (key, value) ← rest; some (c ∷ key, value))

-- What a round of the loop gives to the handler, if anything; `none` is a run that C leaves
-- undefined.
unfoldable pub parse_line : List ℕ → Option (List (Str × Str))
unfolding cut
parse_line linebuf =
    let linep = strip_start (string_in linebuf) in
    if is_blank_line linep then some [] else (do
      stripped ← strip_end is_end_blank linep
      elim (cut stripped) [ none ↦ some [] | some pair ↦ some (pair ∷ []) ])

abbrev pub line_buf_size : ℕ
line_buf_size = 512

-- The loop on fuel; every round takes a character or more.
unfoldable pub parse_from : ℕ → List ℕ → Option (List (Str × Str))
unfolding parse_line
parse_from zero cs = none
parse_from (suc fuel) [] = some []
parse_from (suc fuel) (c ∷ cs) = do
  let (linebuf, rest) = fgets 511 (c ∷ cs)
  calls ← parse_line linebuf
  later ← parse_from fuel rest
  some (calls ++ later)

-- The status and the calls of the handler; `none` is a file that cannot be opened.
unfoldable pub parse_config : Option (List ℕ) → Option (ℤ × List (Str × Str))
unfolding parse_from
parse_config none = some (negsuc 0, [])
parse_config (some content) = do
  calls ← parse_from (length content + 1) content
  some (pos 0, calls)

abbrev pub same_start : Str → Str → Bool
same_start [] s = true
same_start (c ∷ cs) [] = false
same_start (c ∷ cs) (d ∷ ds) = if c == d then same_start cs ds else false

abbrev pub key_skip : Str
key_skip = b'e' ∷ b'x' ∷ b'p' ∷ b'o' ∷ b'r' ∷ b't' ∷ []

-- What the handler `echo` prints.
unfoldable pub echo : Str × Str → Str × Str
echo (key, value) = (strip_start (if same_start key_skip key then drop 6 key else key), value)
