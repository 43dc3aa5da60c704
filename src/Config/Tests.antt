-- ===== src/Config/Tests.antt =====
-- Small files, and the theorems there.
use code_snippet.Prelude.{◌≡◌, refl, none, some, List, [], ◌∷◌, pos, arith}
use code_snippet.Config.{newline, strip_start}
use code_snippet.Config.Pairs.{parse_config, echo}
use code_snippet.Config.PairsRead.{entry, comment, Line, parse_config-file}
use code_snippet.Config.Columns.{read_config}
use code_snippet.Config.ColumnsRead
use code_snippet.Config.ColumnsRead.{Row, read_config-file, read_config-overrun}

-- " a=b=c ", "#x"
abbrev sample : List Line
sample = entry (32 ∷ []) b'a' [] (b'b' ∷ b'=' ∷ b'c' ∷ []) (32 ∷ []) ∷ comment [] (b'x' ∷ []) ∷ []

parse_config-file_example :
    parse_config
      (some (32 ∷ b'a' ∷ b'=' ∷ b'b' ∷ b'=' ∷ b'c' ∷ 32 ∷ newline ∷ b'#' ∷ b'x' ∷ newline ∷ []))
    ≡ some (pos 0, (b'a' ∷ [], b'b' ∷ b'=' ∷ b'c' ∷ []) ∷ [])
parse_config-file_example = parse_config-file sample (
  ((
    ((refl, tt), (refl, refl), ((omega arith), tt), refl, (refl, tt)),
    (
      (
        (omega arith, omega arith),
        (
          (omega arith, omega arith),
          (
            (omega arith, omega arith),
            (
              (omega arith, omega arith),
              (
                (omega arith, omega arith),
                ((omega arith, omega arith), ((omega arith, omega arith), tt)),
              ),
            ),
          ),
        ),
      ),
      omega arith,
    ),
  )),
  ((tt, (((omega arith, omega arith), ((omega arith, omega arith), tt)), omega arith)), tt),
)

echo_runs : echo (b'e' ∷ b'x' ∷ b'p' ∷ b'o' ∷ b'r' ∷ b't' ∷ 32 ∷ b'a' ∷ [], []) ≡ (b'a' ∷ [], [])
unfolding echo strip_start
echo_runs = refl

-- "a;;b"
abbrev row : Row
row = record { lead = []; first = b'a'; others = []; columns = [] ∷ (b'b' ∷ []) ∷ []; trail = [] }

row-IsWellFormed : ColumnsRead.IsWellFormed row
row-IsWellFormed = record {
  blank = tt;
  begins = refl;
  not_comment = refl;
  separate = (omega arith, tt);
  all_separate = (tt, ((omega arith, tt), tt));
  ends = refl;
  trailing = tt;
  plain = (
    (omega arith, omega arith),
    ((omega arith, omega arith), ((omega arith, omega arith), ((omega arith, omega arith), tt))),
  );
  fits = omega arith;
}

read_config-file_example :
    read_config (some (b'a' ∷ b';' ∷ b';' ∷ b'b' ∷ newline ∷ []))
    ≡ some (pos 1, ((b'a' ∷ []) ∷ [] ∷ (b'b' ∷ []) ∷ []) ∷ [])
read_config-file_example = read_config-file (row ∷ []) (row-IsWellFormed, tt)

read_config-overrun_example :
    read_config (some (32 ∷ b';' ∷ b';' ∷ newline ∷ b'a' ∷ newline ∷ [])) ≡ none
read_config-overrun_example =
    read_config-overrun (32 ∷ []) (b';' ∷ []) (b'a' ∷ newline ∷ []) (refl, tt) (refl, tt)
      ((omega arith, omega arith), ((omega arith, omega arith), ((omega arith, omega arith), tt)))
      (omega arith)
