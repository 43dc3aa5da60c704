-- ===== src/FpgaSocket/Bounds.antt =====
-- A write of a whole message, when the socket takes every frame.
use code_snippet.Prelude.{
  Option, ℕ, zero, suc, ◌+◌, ◌-◌, ◌%◌, ◌^◌, ◌≤◌, ◌<◌, ◌≡◌, refl, ap, ◌∙◌, Bool-cases, inl, inr,
  true, some, List, [], ◌∷◌, ◌++◌, ℤ, pos, length, length-replicate, replicate, ltb, ◌==◌, All,
  arith,
}
use code_snippet.Prelude.Arrays.{get_or, get_elem?-get_or}
use code_snippet.Prelude.Memory.{read_bytes, read_bytes-length, write_bytes-length}
use code_snippet.FpgaSocket.{
  mtu_max, mtu_min, cmd_pos, addr_pos, data_len_pos, data_header_len, link_header_len,
  link_trailer_len, get_word, build_frame, to_size, write_frames, do_write_fpga_ram,
}
use code_snippet.FpgaSocket.Frames.{store-length, build_frame-length}

-- Every frame has a size that the link takes.
abbrev pub AreLegal : List (List ℕ) → Type 0
AreLegal frames = All (λ f. (mtu_min ≤ length f) × (length f ≤ mtu_max)) frames

abbrev pub bytes_sent : List (List ℕ) → ℕ
bytes_sent [] = 0
bytes_sent (f ∷ fs) = length f + bytes_sent fs

bytes_sent-append : (fs gs : List (List ℕ)) → bytes_sent (fs ++ gs) ≡ bytes_sent fs + bytes_sent gs
bytes_sent-append [] gs = omega arith
bytes_sent-append (f ∷ fs) gs = omega (arith, bytes_sent-append fs gs)

append-AreLegal :
    (fs : List (List ℕ)) (f : List ℕ)
    → AreLegal fs
    → mtu_min ≤ length f
    → length f ≤ mtu_max
    → AreLegal (fs ++ (f ∷ []))
append-AreLegal [] f legal low high = ((low, high), tt)
append-AreLegal (g ∷ gs) f legal low high = (legal.0, append-AreLegal gs f legal.1 low high)

added :
    (total n : ℕ) (ret : ℤ)
    → ret ≡ pos n
    → total + n < 2 ^ 34
    → (total + to_size ret) % 2 ^ 64 ≡ total + n
added total n ret e h = rw e (omega (arith, h))

frames_turn :
    (send : ℕ → List ℕ → ℤ) (fuel turn : ℕ) (buf wbuf : List ℕ) (addr datalen total : ℕ)
    (sent : List (List ℕ)) (wbuf' : List ℕ) (n : ℕ) (frame : List ℕ)
    → ltb total datalen ≡ true
    → build_frame buf wbuf addr total (datalen - total) ≡ some (wbuf', n)
    → read_bytes n wbuf' ≡ some frame
    → (total + to_size (send turn frame)) % 2 ^ 64 ≡ total + n
    → write_frames send (suc fuel) turn buf wbuf addr datalen total sent
      ≡ write_frames send fuel (suc turn) buf wbuf' addr datalen (total + n) (sent ++ (frame ∷ []))
unfolding write_frames
frames_turn send fuel turn buf wbuf addr datalen total sent wbuf' n frame more builds reads step =
    rw (more, builds, reads, step) refl

-- What a whole write gives: its result is the number of bytes of its frames.
abbrev pub IsWhole : ℕ → Option (ℤ × List (List ℕ)) → Type 0
IsWhole datalen run =
    (n : ℕ) × (frames : List (List ℕ)) × (run ≡ some (pos n, frames))
    × AreLegal frames
    × (bytes_sent frames ≡ n)
    × (datalen ≤ n)

continued :
    (datalen : ℕ) {r r' : Option (ℤ × List (List ℕ))}
    → r ≡ r'
    → IsWhole datalen r'
    → IsWhole datalen r
continued datalen e (n, frames, runs, legal, same, reached) =
    (n, frames, e ∙ runs, legal, same, reached)

write_frames-AreLegal :
    (send : ℕ → List ℕ → ℤ) (fuel turn : ℕ) (buf wbuf : List ℕ) (addr datalen total : ℕ)
    (sent : List (List ℕ))
    → ((k : ℕ) (f : List ℕ) → send k f ≡ pos (length f))
    → datalen ≤ length buf
    → datalen < 2 ^ 32
    → length wbuf ≡ mtu_max
    → datalen - total < fuel
    → total ≤ datalen + mtu_max
    → bytes_sent sent ≡ total
    → AreLegal sent
    → IsWhole datalen (write_frames send fuel turn buf wbuf addr datalen total sent)
unfolding write_frames
write_frames-AreLegal send zero turn buf wbuf addr datalen total sent takes inside small size enough
      bound same legal =
    absurd (omega (arith, enough))
write_frames-AreLegal send (suc fuel) turn buf wbuf addr datalen total sent takes inside small size
      enough bound same legal =
    elim (Bool-cases (ltb total datalen)) [
      | inr done ↦
          let reached : datalen ≤ total = ground (arith, done) in
          let positive : ltb total (2 ^ 63) ≡ true = ground (arith, bound, small) in
          (total, sent, rw (done, positive) refl, legal, same, reached)
      | inl more ↦
          let left : total < datalen = ground (arith, more) in
          let (wbuf', n, builds, size', low, high) =
            build_frame-length buf wbuf addr total (datalen - total) (omega (arith, left))
              (omega (arith, left, inside)) size in
          let (frame, reads, length_frame) =
            read_bytes-length n wbuf' (omega (arith, size', high)) in
          continued datalen
            (frames_turn send fuel turn buf wbuf addr datalen total sent wbuf' n frame more builds
              reads
              (added total n (send turn frame) (takes turn frame ∙ ap pos length_frame)
                (omega (arith, high, bound, small))))
            (write_frames-AreLegal send fuel (suc turn) buf wbuf' addr datalen (total + n)
              (sent ++ (frame ∷ [])) takes inside small size' (omega (arith, enough, low, left))
              (omega (arith, left, high))
              (omega (arith, bytes_sent-append sent (frame ∷ []), same, length_frame))
              (append-AreLegal sent frame legal (omega (arith, length_frame, low))
                (omega (arith, length_frame, high))))
    ]

-- What comes before the loop.
do_write_starts :
    (send : ℕ → List ℕ → ℤ) (buf : List ℕ) (addr datalen : ℕ)
    → get_word buf addr_pos ≡ some addr
    → get_word buf data_len_pos ≡ some datalen
    → length buf ≡ datalen + data_header_len + link_trailer_len
    → length buf < 2 ^ 32
    → (w : List ℕ) × (do_write_fpga_ram send (datalen + 1) buf (length buf)
        ≡ write_frames send (datalen + 1) 0 buf w addr datalen 0 [])
      × (length w ≡ mtu_max)
unfolding do_write_fpga_ram
do_write_starts send buf addr datalen e₀ says size small =
    let (header, e₁, l₁) = read_bytes-length link_header_len buf (omega (arith, size)) in
    let zero_byte : ℕ = 0 in
    let zeros : length (replicate mtu_max zero_byte) ≡ mtu_max =
      length-replicate mtu_max zero_byte in
    let (w₁, e₂, l₂) =
      write_bytes-length header (replicate mtu_max zero_byte) (omega (arith, l₁, zeros)) in
    let e₃ = get_elem?-get_or buf cmd_pos 0 (omega (arith, size)) in
    let (w₂, e₄, l₄) = store-length w₁ cmd_pos (get_or buf cmd_pos 0) (omega (arith, l₂, zeros)) in
    let right : (length buf == (datalen + data_header_len + link_trailer_len) % 2 ^ 32) ≡ true =
      ground (arith, size, small) in
    (w₂, rw (e₀, says, right, e₁, e₂, e₃, e₄) refl, l₄ ∙ l₂ ∙ zeros)

-- A message whose address and length are defined, the highest bytes of both being below 128, and
-- whose header says that all behind it but the trailer is data, to a socket that takes every frame:
-- the loop ends, reads and writes inside its buffers, hands over frames of 64 to 2000 bytes, and the
-- result is the number of their bytes, headers and all, which is at least the length of the data.
pub do_write-AreLegal :
    (send : ℕ → List ℕ → ℤ) (buf : List ℕ) (addr datalen : ℕ)
    → ((k : ℕ) (f : List ℕ) → send k f ≡ pos (length f))
    → get_word buf addr_pos ≡ some addr
    → get_word buf data_len_pos ≡ some datalen
    → length buf ≡ datalen + data_header_len + link_trailer_len
    → length buf < 2 ^ 32
    → (n : ℕ) × (frames : List (List ℕ)) × (do_write_fpga_ram send (datalen + 1) buf (length buf)
        ≡ some (pos n, frames))
      × AreLegal frames
      × (bytes_sent frames ≡ n)
      × (datalen ≤ n)
do_write-AreLegal send buf addr datalen takes to says size small =
    let (w, starts, size') = do_write_starts send buf addr datalen to says size small in
    continued datalen starts (
      write_frames-AreLegal send (datalen + 1) 0 buf w addr datalen 0 [] takes (omega (arith, size))
        (omega (arith, size, small)) size' (omega arith) (omega arith) refl tt)
