-- ===== src/Rpc/Checksum.antt =====
-- The checksum of a frame, and the corruptions that it detects.
use code_snippet.Prelude.{
  ℕ, zero, suc, ◌+◌, ◌-◌, ◌*◌, ◌%◌, ◌≤◌, ◌<◌, ◌≡◌, ◌≢◌, ap, sym, ◌∙◌, some, List, [], ◌∷◌, ◌++◌,
  length, ◌==◌, arith, Option-cases, inl, inr, false,
}
use code_snippet.Prelude.Arrays.{get_or, set}
use code_snippet.Rpc.Message.{
  Message, rpc_buffer_size, e_checksum, checksum_from, calculate_checksum, read_bytes, serialize,
  deserialize,
}

unfoldable pub sum : List ℕ → ℕ
sum [] = 0
sum (b ∷ bs) = b + sum bs

sum-append : (xs ys : List ℕ) → sum (xs ++ ys) ≡ sum xs + sum ys
unfolding sum
sum-append [] ys = omega arith
sum-append (x ∷ xs) ys = omega (arith, sum-append xs ys)

checksum_from-sum :
    (cks : ℕ) (bs : List ℕ) → cks < 256 → checksum_from cks bs ≡ (cks + sum bs) % 256
unfolding checksum_from sum
checksum_from-sum cks [] h = omega arith
checksum_from-sum cks (b ∷ bs) h =
    omega (arith, checksum_from-sum ((cks + b) % 256) bs (omega arith))

pub calculate_checksum-sum : (bs : List ℕ) → calculate_checksum bs ≡ sum bs % 256
unfolding calculate_checksum
calculate_checksum-sum bs = checksum_from-sum 0 bs (omega arith) ∙ ap (λ n. n % 256) (omega arith)

-- What `serialize` puts before the checksum.
abbrev pub body : Message → List ℕ → List ℕ
body msg payload =
    (msg.cmd * 2 + msg.rqrs) % 256 ∷ msg.data_len % 256 ∷ (msg.data_len * 256) % 256 ∷ payload

abbrev pub frame : Message → List ℕ → List ℕ
frame msg payload = body msg payload ++ (((256 - calculate_checksum (body msg payload)) % 256) ∷ [])

pub serialize-frame :
    (msg : Message) (bytes : List ℕ)
    → serialize msg ≡ some bytes
    → (payload : List ℕ) × (read_bytes msg.data_len msg.content ≡ some payload)
      × (msg.data_len + 4 ≤ rpc_buffer_size)
      × (bytes ≡ frame msg payload)
unfolding serialize
serialize-frame msg bytes e = elim (Option-cases (read_bytes msg.data_len msg.content)) [
  | inl short ↦ absurd (ground arith)
  | inr (payload, got) ↦ (payload, got, ground arith, ground arith)
]

frame-sum : (bs : List ℕ) → sum (bs ++ (((256 - calculate_checksum bs) % 256) ∷ [])) % 256 ≡ 0
unfolding sum
frame-sum bs =
    omega
      (arith, sum-append bs (((256 - calculate_checksum bs) % 256) ∷ []), calculate_checksum-sum bs)

-- The bytes of a message that is sent add up to 0 modulo 256.
pub serialize-checksum :
    (msg : Message) (bytes : List ℕ) → serialize msg ≡ some bytes → calculate_checksum bytes ≡ 0
serialize-checksum msg bytes e =
    let (payload, got, fits, same) = serialize-frame msg bytes e in
    rw (same, calculate_checksum-sum (frame msg payload)) (frame-sum (body msg payload))

sum-set : (bs : List ℕ) (i v : ℕ) → i < length bs → sum (set bs i v) + get_or bs i 0 ≡ sum bs + v
unfolding sum
sum-set [] i v h = elim h [ ]
sum-set (b ∷ bs) zero v h = omega arith
sum-set (b ∷ bs) (suc i) v h = omega (arith, sum-set bs i v (omega arith))

pub deserialize-rejects :
    (into : Message) (bytes stale : List ℕ)
    → calculate_checksum bytes ≢ 0
    → deserialize into bytes stale ≡ some (e_checksum, into)
unfolding deserialize
deserialize-rejects into bytes stale h =
    let e : (calculate_checksum bytes == 0) ≡ false = ground arith in rw e

changed-sum :
    (old new s t : ℕ)
    → t + old ≡ s + new
    → s % 256 ≡ 0
    → old < 256
    → new < 256
    → new ≢ old
    → t % 256 ≢ 0
changed-sum old new s t e zero_sum a b ne = omega arith

-- A frame with one byte changed on the way is refused, and the message is left as it was.
pub deserialize-corrupted :
    (msg into : Message) (bytes stale : List ℕ) (i v : ℕ)
    → serialize msg ≡ some bytes
    → i < length bytes
    → get_or bytes i 0 < 256
    → v < 256
    → v ≢ get_or bytes i 0
    → deserialize into (set bytes i v) stale ≡ some (e_checksum, into)
deserialize-corrupted msg into bytes stale i v e h old new ne =
    deserialize-rejects into (set bytes i v) stale (
      rw (calculate_checksum-sum (set bytes i v)) (
        changed-sum (get_or bytes i 0) v (sum bytes) (sum (set bytes i v)) (sum-set bytes i v h)
          (sym (calculate_checksum-sum bytes) ∙ serialize-checksum msg bytes e) old new ne))
