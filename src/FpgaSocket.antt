-- ===== src/FpgaSocket.antt =====
-- socket/fpga_socket/fpga_socket.c: a write to the memory of the FPGA, cut into frames. A buffer
-- is the list of its bytes; the calls of the socket are arguments. `recv`, `open` and `close` only
-- pass on what the system gives.
pub mod Frames
pub mod Bounds
mod Tests
use code_snippet.Prelude.{
  ℕ, zero, suc, ◌+◌, ◌-◌, ◌*◌, ◌/◌, ◌%◌, ◌^◌, Bool, true, false, not, ◌||◌, Option, none, some,
  List, [], ◌∷◌, ◌++◌, ℤ, pos, negsuc, leb, ltb, ◌==◌, take, drop, replicate, if◌then◌else◌, ◌>>=◌,
}
use code_snippet.Prelude.Arrays.{get_elem?, store}
use code_snippet.Prelude.Memory.{read_bytes, write_bytes}

abbrev pub mtu_max : ℕ
mtu_max = 2000

abbrev pub mtu_min : ℕ
mtu_min = 64

abbrev pub cmd_pos : ℕ
cmd_pos = 14

abbrev pub addr_pos : ℕ
addr_pos = 15

abbrev pub data_len_pos : ℕ
data_len_pos = 19

abbrev pub link_header_len : ℕ
link_header_len = 14

abbrev pub link_trailer_len : ℕ
link_trailer_len = 4

abbrev pub data_header_len : ℕ
data_header_len = 23

abbrev pub data_len_max : ℕ
data_len_max = mtu_max - data_header_len - link_trailer_len

abbrev pub data_len_min : ℕ
data_len_min = mtu_min - data_header_len - link_trailer_len

abbrev pub fpga_mac : List ℕ
fpga_mac = 235 ∷ 144 ∷ 235 ∷ 144 ∷ 235 ∷ 144 ∷ []

-- `caculate_chksum` of the first bytes of a memory.
unfoldable pub caculate_chksum : (len : ℕ) → List ℕ → (chksum : ℕ) → Option ℕ
caculate_chksum zero bytes chksum = some chksum
caculate_chksum (suc n) [] chksum = none
caculate_chksum (suc n) (b ∷ bytes) chksum = caculate_chksum n bytes ((chksum + b) % 2 ^ 32)

-- Four bytes as a number, the lowest first. A shift of a byte from 128 on by 24 leaves the range of
-- `int`.
unfoldable pub get_word : List ℕ → ℕ → Option ℕ
get_word buf p = do
  b0 ← get_elem? buf p
  b1 ← get_elem? buf (p + 1)
  b2 ← get_elem? buf (p + 2)
  b3 ← get_elem? buf (p + 3)
  if ltb b3 128 then some (b0 + b1 * 2 ^ 8 + b2 * 2 ^ 16 + b3 * 2 ^ 24) else none

unfoldable pub put_word : List ℕ → ℕ → ℕ → Option (List ℕ)
put_word wbuf p v = do
  w₀ ← store wbuf p (v % 256)
  w₁ ← store w₀ (p + 1) (v / 2 ^ 8 % 256)
  w₂ ← store w₁ (p + 2) (v / 2 ^ 16 % 256)
  store w₂ (p + 3) (v / 2 ^ 24 % 256)

-- `wlen` and `padlen` for the bytes that are left.
unfoldable pub frame_lengths : ℕ → ℕ × ℕ
frame_lengths left =
    if leb data_len_max left
    then (data_len_max, 0)
    else if leb left data_len_min
    then (left, data_len_min - left)
    else (left, 0)

-- A round of the loop up to the call of `send`: `wbuf` after it, and how much of it is sent.
unfoldable pub build_frame : (buf wbuf : List ℕ) → (addr totalwrite left : ℕ) → Option (List ℕ × ℕ)
build_frame buf wbuf addr totalwrite left = do
  let wlen = (frame_lengths left).0
  let padlen = (frame_lengths left).1
  w₁ ← put_word wbuf addr_pos ((addr + totalwrite) % 2 ^ 32)
  w₂ ← put_word w₁ data_len_pos wlen
  bytes ← read_bytes wlen (drop totalwrite buf)
  w₃ ← write_bytes bytes w₂
  w₄ ← write_bytes (replicate padlen 0) w₃
  chksum ← caculate_chksum (data_header_len + wlen + padlen) w₄ 0
  w₅ ← put_word w₄ (data_len_pos + wlen + padlen) chksum
  some (w₅, data_header_len + wlen + padlen + link_trailer_len)

-- A status as `size_t`, and back.
abbrev pub to_size : ℤ → ℕ
to_size (pos n) = n % 2 ^ 64
to_size (negsuc n) = 2 ^ 64 - 1 - n

abbrev pub to_ssize : ℕ → ℤ
to_ssize n = if ltb n (2 ^ 63) then pos n else negsuc (2 ^ 64 - 1 - n)

-- The loop: the result, and the frames that were handed to `send`. `ret` is a `size_t`, which is
-- never below 0, so that an error of `send` does not end the loop.
unfoldable pub write_frames :
    (send : ℕ → List ℕ → ℤ)
    → (fuel turn : ℕ) → (buf wbuf : List ℕ) → (addr datalen totalwrite : ℕ) → (sent : List (List ℕ))
    → Option (ℤ × List (List ℕ))
write_frames send zero turn buf wbuf addr datalen totalwrite sent = none
write_frames send (suc fuel) turn buf wbuf addr datalen totalwrite sent =
    if ltb totalwrite datalen
    then (build_frame buf wbuf addr totalwrite (datalen - totalwrite) >>= λ built.
        read_bytes built.1 built.0 >>= λ frame.
        write_frames send fuel (suc turn) buf built.0 addr datalen
          ((totalwrite + to_size (send turn frame)) % 2 ^ 64) (sent ++ (frame ∷ [])))
    else some (to_ssize totalwrite, sent)

-- `do_write_fpga_ram`
unfoldable pub do_write_fpga_ram :
    (send : ℕ → List ℕ → ℤ) → (fuel : ℕ) → (buf : List ℕ) → (len : ℕ) → Option (ℤ × List (List ℕ))
do_write_fpga_ram send fuel buf len = do
  addr ← get_word buf addr_pos
  datalen ← get_word buf data_len_pos
  if not (len == (datalen + data_header_len + link_trailer_len) % 2 ^ 32)
      then some (negsuc 0, [])
      else (do
        header ← read_bytes link_header_len buf
        w₁ ← write_bytes header (replicate mtu_max 0)
        cmd ← get_elem? buf cmd_pos
        w₂ ← store w₁ cmd_pos cmd
        write_frames send fuel 0 buf w₂ addr datalen 0 [])

abbrev same_bytes : List ℕ → List ℕ → Bool
same_bytes [] [] = true
same_bytes [] (y ∷ ys) = false
same_bytes (x ∷ xs) [] = false
same_bytes (x ∷ xs) (y ∷ ys) = if x == y then same_bytes xs ys else false

-- `fpga_write`
unfoldable pub fpga_write :
    (send : ℕ → List ℕ → ℤ) → (fuel : ℕ) → (buf : List ℕ) → (len : ℕ) → Option (ℤ × List (List ℕ))
unfolding do_write_fpga_ram
fpga_write send fuel buf len = do
  mac ← read_bytes 6 buf
  if same_bytes mac fpga_mac
      then do_write_fpga_ram send fuel buf len
      else if ltb mtu_max len || ltb len mtu_min
      then some (negsuc 0, [])
      else (do frame ← read_bytes len buf; some (send 0 frame, frame ∷ []))

-- `fpga_read`; `recv` gives the status and the bytes.
unfoldable pub fpga_read : (recv : ℕ → ℤ × List ℕ) → (len : ℕ) → ℤ × List ℕ
fpga_read recv len = if ltb len mtu_max then (negsuc 0, []) else recv len
