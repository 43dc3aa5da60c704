-- ===== src/Prelude/Strings.antt =====
-- C strings as the characters before the terminating zero.
use Prim.Native.Nat.{ℕ}
use mathlib.Core.Bool.{Bool}
use mathlib.Core.List.{List, [], ◌∷◌}
use code_snippet.Prelude.Tests.{if◌then◌else◌}

abbrev pub Str : Type 0
Str = List ℕ

abbrev pub add_to_first : ℕ → List Str → List Str
add_to_first c [] = []
add_to_first c (f ∷ fs) = (c ∷ f) ∷ fs

-- What a loop of `strsep` up to NULL gives, one after the other: a string without a separator is
-- one field.
abbrev pub fields : (ℕ → Bool) → Str → List Str
fields is_sep [] = [] ∷ []
fields is_sep (c ∷ cs) =
    if is_sep c then [] ∷ fields is_sep cs else add_to_first c (fields is_sep cs)
