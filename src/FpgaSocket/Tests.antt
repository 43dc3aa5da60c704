-- ===== src/FpgaSocket/Tests.antt =====
-- A message with two bytes of data.
use code_snippet.Prelude.{
  ℕ, ◌≡◌, ◌≤◌, refl, some, List, [], ◌∷◌, ◌++◌, ℤ, pos, length, replicate, arith,
}
use code_snippet.FpgaSocket.{get_word, do_write_fpga_ram}
use code_snippet.FpgaSocket.Bounds.{AreLegal, bytes_sent, do_write-AreLegal}

abbrev send : ℕ → List ℕ → ℤ
send turn frame = pos (length frame)

abbrev message : List ℕ
message = replicate 19 1 ++ (2 ∷ 0 ∷ 0 ∷ 0 ∷ []) ++ (7 ∷ 8 ∷ []) ++ replicate 4 0

message_says : get_word message 19 ≡ some 2
unfolding get_word
message_says = refl

message_to : get_word message 15 ≡ some 16843009
unfolding get_word
message_to = refl

do_write-AreLegal_example :
    (n : ℕ) × (frames : List (List ℕ)) × (do_write_fpga_ram send 3 message 29
      ≡ some (pos n, frames))
    × AreLegal frames
    × (bytes_sent frames ≡ n)
    × (2 ≤ n)
do_write-AreLegal_example =
    do_write-AreLegal send message 16843009 2 (λ k f. refl) message_to message_says refl
      (omega arith)
