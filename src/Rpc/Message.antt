-- ===== src/Rpc/Message.antt =====
-- Messages and their form on the wire. A byte is a number; `none` is a run that C leaves
-- undefined, here an access outside of a buffer.
unfoldable pub use code_snippet.Prelude.Memory.{read_bytes, write_bytes}
use code_snippet.Prelude.{
  ℕ, ◌+◌, ◌-◌, ◌*◌, ◌/◌, ◌%◌, Option, none, some, List, [], ◌∷◌, ◌++◌, ℤ, pos, negsuc, drop, ltb,
  ◌==◌, ◌>>=◌, if◌then◌else◌,
}
use code_snippet.Prelude.Arrays.{get_elem?}

-- `rpc_msg_t`. `cmd` has 7 bits, `rqrs` one, `data_len` 16. `content` is the memory that the
-- pointer `data` gives access to.
pub record Message : Type 0 where
  pub cmd : ℕ
  pub rqrs : ℕ
  pub data_len : ℕ
  pub content : List ℕ

abbrev pub rpc_buffer_size : ℕ
rpc_buffer_size = 512

abbrev pub e_ok : ℤ
e_ok = pos 0

abbrev pub e_send : ℤ
e_send = negsuc 2

abbrev pub e_recv : ℤ
e_recv = negsuc 3

abbrev pub e_checksum : ℤ
e_checksum = negsuc 4

-- `uint8_t cks; cks += buf[i]`
unfoldable pub checksum_from : ℕ → List ℕ → ℕ
checksum_from cks [] = cks
checksum_from cks (b ∷ bs) = checksum_from ((cks + b) % 256) bs

unfoldable pub calculate_checksum : List ℕ → ℕ
unfolding checksum_from
calculate_checksum buf = checksum_from 0 buf

-- The bytes of `buf` up to `*buf_len` after `rpc_msg_serialize`. In `cmd << 1 | rqrs` the operands
-- have no bit in common; `buf[2]` is `(data_len << 8) & 0xFF`.
unfoldable pub serialize : Message → Option (List ℕ)
unfolding calculate_checksum read_bytes
serialize msg = do
  payload ← read_bytes msg.data_len msg.content
  let body =
      (msg.cmd * 2 + msg.rqrs) % 256 ∷ msg.data_len % 256 ∷ (msg.data_len * 256) % 256 ∷ payload
  if ltb rpc_buffer_size (msg.data_len + 4)
      then none
      else some (body ++ (((256 - calculate_checksum body) % 256) ∷ []))

-- `rpc_msg_deserialize` on the `buf_len` bytes `bytes` at the start of `buf`, with `stale` behind
-- them.
unfoldable pub deserialize : Message → (bytes stale : List ℕ) → Option (ℤ × Message)
unfolding calculate_checksum read_bytes write_bytes
deserialize msg bytes stale =
    if calculate_checksum bytes == 0
    then (do
      let buf = bytes ++ stale
      b0 ← get_elem? buf 0
      b1 ← get_elem? buf 1
      b2 ← get_elem? buf 2
      let data_len = b2 * 256 + b1
      payload ← read_bytes data_len (drop 3 buf)
      content ← write_bytes payload msg.content
      some (e_ok, record { cmd = b0 / 2; rqrs = b0 % 2; data_len = data_len; content = content }))
    else some (e_checksum, msg)
