-- ===== src/FpgaSocket/Frames.antt =====
-- A round of the loop stays inside the buffers, and makes a frame of a legal size.
use code_snippet.Prelude.{
  ℕ, zero, suc, ◌+◌, ◌-◌, ◌/◌, ◌%◌, ◌^◌, ◌≤◌, ◌<◌, ◌≡◌, refl, ◌∙◌, some, List, [], ◌∷◌, length,
  length-replicate, replicate, drop, arith,
}
use code_snippet.Prelude.Arrays.{store, set, store-set, length-set}
use code_snippet.Prelude.Memory.{read_bytes-length, write_bytes-length}
use code_snippet.FpgaSocket.{
  mtu_max, mtu_min, addr_pos, data_len_pos, data_header_len, link_trailer_len, data_len_max,
  data_len_min, caculate_chksum, put_word, frame_lengths, build_frame,
}

pub store-length :
    (xs : List ℕ) (i v : ℕ)
    → i < length xs
    → (out : List ℕ) × (store xs i v ≡ some out) × (length out ≡ length xs)
store-length xs i v h = (set xs i v, store-set xs i v h, length-set xs i v)

put_word-length :
    (wbuf : List ℕ) (p v : ℕ)
    → p + 4 ≤ length wbuf
    → (out : List ℕ) × (put_word wbuf p v ≡ some out) × (length out ≡ length wbuf)
unfolding put_word
put_word-length wbuf p v h =
    let (w₀, e₀, l₀) = store-length wbuf p (v % 256) (omega (arith, h)) in
    let (w₁, e₁, l₁) = store-length w₀ (p + 1) (v / 2 ^ 8 % 256) (omega (arith, h, l₀)) in
    let (w₂, e₂, l₂) = store-length w₁ (p + 2) (v / 2 ^ 16 % 256) (omega (arith, h, l₀, l₁)) in
    let (w₃, e₃, l₃) = store-length w₂ (p + 3) (v / 2 ^ 24 % 256) (omega (arith, h, l₀, l₁, l₂)) in
    (w₃, rw (e₀, e₁, e₂, e₃) refl, l₃ ∙ l₂ ∙ l₁ ∙ l₀)

caculate_chksum-returns :
    (n : ℕ) (bytes : List ℕ) (chksum : ℕ)
    → n ≤ length bytes
    → (c : ℕ) × (caculate_chksum n bytes chksum ≡ some c)
unfolding caculate_chksum
caculate_chksum-returns zero bytes chksum h = (chksum, refl)
caculate_chksum-returns (suc n) [] chksum h = absurd (omega (arith, h))
caculate_chksum-returns (suc n) (b ∷ bytes) chksum h =
    caculate_chksum-returns n bytes ((chksum + b) % 2 ^ 32) (omega (arith, h))

length-drop : (n : ℕ) (xs : List ℕ) → length (drop n xs) ≡ length xs - n
length-drop zero xs = omega arith
length-drop (suc n) [] = omega arith
length-drop (suc n) (x ∷ xs) = omega (arith, length-drop n xs)

-- The lengths of a frame make its size legal.
pub frame_lengths-bounds :
    (left : ℕ)
    → 0 < left
    → ((frame_lengths left).0 ≤ left)
      × (data_len_min ≤ (frame_lengths left).0 + (frame_lengths left).1)
      × ((frame_lengths left).0 + (frame_lengths left).1 ≤ data_len_max)
unfolding frame_lengths
frame_lengths-bounds left h = ground arith

pub build_frame-length :
    (buf wbuf : List ℕ) (addr totalwrite left : ℕ)
    → 0 < left
    → totalwrite + left ≤ length buf
    → length wbuf ≡ mtu_max
    → (out : List ℕ) × (n : ℕ) × (build_frame buf wbuf addr totalwrite left ≡ some (out, n))
      × (length out ≡ mtu_max)
      × (mtu_min ≤ n)
      × (n ≤ mtu_max)
unfolding build_frame
build_frame-length buf wbuf addr totalwrite left h inside size =
    let (short, low, high) = frame_lengths-bounds left h in
    let wlen = (frame_lengths left).0 in
    let padlen = (frame_lengths left).1 in
    let (w₁, e₁, l₁) =
      put_word-length wbuf addr_pos ((addr + totalwrite) % 2 ^ 32) (omega (arith, size)) in
    let (w₂, e₂, l₂) = put_word-length w₁ data_len_pos wlen (omega (arith, size, l₁)) in
    let (bytes, e, l) =
      read_bytes-length wlen (drop totalwrite buf)
        (omega (arith, length-drop totalwrite buf, inside, short)) in
    let zero_byte : ℕ = 0 in
    let zeros : length (replicate padlen zero_byte) ≡ padlen = length-replicate padlen zero_byte in
    let (w₃, e₃, l₃) = write_bytes-length bytes w₂ (omega (arith, l, size, l₁, l₂, high)) in
    let (w₄, e₄, l₄) =
      write_bytes-length (replicate padlen 0) w₃ (omega (arith, zeros, size, l₁, l₂, l₃, high)) in
    let (c, e₅) =
      caculate_chksum-returns (data_header_len + wlen + padlen) w₄ 0
        (omega (arith, size, l₁, l₂, l₃, l₄, high)) in
    let (w₅, e₆, l₅) =
      put_word-length w₄ (data_len_pos + wlen + padlen) c
        (omega (arith, size, l₁, l₂, l₃, l₄, high)) in
    (
      w₅,
      data_header_len + wlen + padlen + link_trailer_len,
      rw (e₁, e₂, e, e₃, e₄, e₅, e₆) refl,
      omega (arith, l₅, l₄, l₃, l₂, l₁, size),
      omega (arith, low),
      omega (arith, high),
    )
