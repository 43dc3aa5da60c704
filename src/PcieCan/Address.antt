-- ===== src/PcieCan/Address.antt =====
-- `get_pci_bar_addr` of hardware/pcie_sysfs_can.c finds the line of its region.
use code_snippet.Prelude.{
  ℕ, suc, ◌+◌, ◌≡◌, ◌≢◌, ◌<◌, refl, false, some, List, [], ◌∷◌, ◌++◌, append_assoc, length, All,
  ◌∙◌, ap, ◌>>=◌, ◌==◌, arith,
}
use code_snippet.Prelude.Strings.{Str}
use code_snippet.Config.{newline, string_in}
use code_snippet.Config.Lines.{IsInLine, fgets-line, string_in-line}
use code_snippet.PcieCan.{last_line, before_blank, get_pci_bar_addr}

abbrev pub text : List Str → List ℕ → List ℕ
text [] rest = rest
text (l ∷ ls) rest = l ++ (newline ∷ text ls rest)

-- Lines that the buffer has room for.
abbrev pub Fit : List Str → Type 0
Fit ls = All (λ l. (length l < 255) × IsInLine l) ls

last_line-text :
    (before : List Str) (line : Str) (buf rest : List ℕ)
    → Fit before
    → length line < 255
    → IsInLine line
    → last_line (suc (length before)) buf (text before (line ++ (newline ∷ rest)))
      ≡ line ++ (newline ∷ [])
unfolding last_line
last_line-text [] line buf rest f short plain =
    rw (fgets-line 255 line rest short plain, last_line) refl
last_line-text (l ∷ ls) line buf rest f short plain =
    rw (fgets-line 255 l (text ls (line ++ (newline ∷ rest))) f.0.0 f.0.1, last_line)
      (last_line-text ls line (l ++ (newline ∷ [])) rest f.1 short plain)

before_blank-first :
    (first more : Str) → All (λ c. c ≢ 32) first → before_blank (first ++ (32 ∷ more)) ≡ some first
unfolding before_blank
before_blank-first [] more h = refl
before_blank-first (c ∷ cs) more h =
    let other : (c == 32) ≡ false = ground (arith, h.0) in
    rw (other, before_blank-first cs more h.1) refl

-- In a file whose lines fit into the buffer, the address of a region is the conversion of the first
-- word of the line with its number, counted from 0.
pub get_pci_bar_addr-first :
    (strtoll : Str → ℕ) (before : List Str) (first more rest : Str)
    → Fit before
    → length (first ++ (32 ∷ more)) < 255
    → IsInLine (first ++ (32 ∷ more))
    → All (λ c. c ≢ 32) first
    → get_pci_bar_addr strtoll
        (some (text before ((first ++ (32 ∷ more)) ++ (newline ∷ rest))))
        (length before)
      ≡ some (some (strtoll first))
unfolding get_pci_bar_addr
get_pci_bar_addr-first strtoll before first more rest f short plain word =
    let one_more : length before + 1 ≡ suc (length before) = omega arith in
    ap (λ buf. some (do word' ← before_blank (string_in buf); some (strtoll word')))
      (ap (λ n. last_line n [] (text before ((first ++ (32 ∷ more)) ++ (newline ∷ rest)))) one_more
        ∙ last_line-text before (first ++ (32 ∷ more)) [] rest f short plain)
    ∙ rw
        (
          string_in-line (first ++ (32 ∷ more)) plain,
          append_assoc first (32 ∷ more) (newline ∷ []),
          before_blank-first first (more ++ (newline ∷ [])) word,
        )
        refl
