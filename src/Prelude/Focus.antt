-- ===== src/Prelude/Focus.antt =====
-- An array at an index: what stands before, the nearest element first, and what stands behind.
use code_snippet.Prelude.Lists.{length}
use code_snippet.Prelude.Ints.{ℤ}
use code_snippet.Prelude.Arrays.{get_elem?, store, cons?}
use Prim.Native.Nat.{ℕ, suc, ◌+◌}
use mathlib.Core.Path.{◌≡◌, ap, ◌∙◌}
use mathlib.Core.Option.{some}
use mathlib.Core.List.{List, [], ◌∷◌}
use native.Mathlib.Omega.{arith}

-- The array whose elements before `ys` are those of `xs`, the last of them first.
abbrev pub rebuild : List ℤ → List ℤ → List ℤ
rebuild [] ys = ys
rebuild (x ∷ xs) ys = rebuild xs (x ∷ ys)

pub get_elem?-rebuild :
    (xs ys : List ℤ) (i k : ℕ) → i ≡ length xs + k → get_elem? (rebuild xs ys) i ≡ get_elem? ys k
get_elem?-rebuild [] ys i k e = ap (get_elem? ys) (omega (arith, e))
get_elem?-rebuild (x ∷ xs) ys i k e = get_elem?-rebuild xs (x ∷ ys) i (suc k) (omega (arith, e))

pub store-rebuild :
    (xs ys zs : List ℤ) (i k : ℕ) (v : ℤ)
    → i ≡ length xs + k
    → store ys k v ≡ some zs
    → store (rebuild xs ys) i v ≡ some (rebuild xs zs)
store-rebuild [] ys zs i k v e h = ap (λ n. store ys n v) (omega (arith, e)) ∙ h
store-rebuild (x ∷ xs) ys zs i k v e h =
    store-rebuild xs (x ∷ ys) (x ∷ zs) i (suc k) v (omega (arith, e)) (ap (cons? x) h)

pub length-rebuild : (xs ys : List ℤ) → length (rebuild xs ys) ≡ length xs + length ys
length-rebuild [] ys = omega arith
length-rebuild (x ∷ xs) ys = omega (arith, length-rebuild xs (x ∷ ys))
