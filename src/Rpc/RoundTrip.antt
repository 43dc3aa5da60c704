-- ===== src/Rpc/RoundTrip.antt =====
-- What a receiver reads from the bytes that a sender made of a message.
use code_snippet.Prelude.{
  ℕ, zero, suc, ◌+◌, ◌*◌, ◌/◌, ◌%◌, ◌≤◌, ◌<◌, ◌≡◌, refl, ap, ◌∙◌, some, List, [], ◌∷◌, ◌++◌,
  append_assoc, length, ◌==◌, arith, Option-cases, inl, inr, length-append, take, drop, true,
}
use code_snippet.Rpc.Message.{
  Message, e_ok, calculate_checksum, read_bytes, write_bytes, serialize, deserialize,
}
use code_snippet.Rpc.Checksum.{frame, serialize-frame, serialize-checksum}

pub read_bytes-take :
    (n : ℕ) (memory : List ℕ) → n ≤ length memory → read_bytes n memory ≡ some (take n memory)
unfolding read_bytes
read_bytes-take zero memory h = refl
read_bytes-take (suc n) [] h = elim h [ ]
read_bytes-take (suc n) (b ∷ memory) h = rw (read_bytes-take n memory (omega arith))

pub read_bytes-enough :
    (n : ℕ) (memory bs : List ℕ)
    → read_bytes n memory ≡ some bs
    → (n ≤ length memory) × (length bs ≡ n) × (bs ≡ take n memory)
unfolding read_bytes
read_bytes-enough zero memory bs e = (omega arith, ground arith, ground arith)
read_bytes-enough (suc n) [] bs e = absurd (cc)
read_bytes-enough (suc n) (b ∷ memory) bs e = elim (Option-cases (read_bytes n memory)) [
  | inl short ↦ absurd (ground arith)
  | inr (rest, got) ↦ ground (arith, read_bytes-enough n memory rest got)
]

pub write_bytes-drop :
    (bs memory : List ℕ)
    → length bs ≤ length memory
    → write_bytes bs memory ≡ some (bs ++ drop (length bs) memory)
unfolding write_bytes
write_bytes-drop [] memory h = refl
write_bytes-drop (b ∷ bs) [] h = elim h [ ]
write_bytes-drop (b ∷ bs) (old ∷ memory) h = rw (write_bytes-drop bs memory (omega arith))

take-append_le : (n : ℕ) (xs ys : List ℕ) → n ≤ length xs → take n (xs ++ ys) ≡ take n xs
take-append_le zero xs ys h = refl
take-append_le (suc n) [] ys h = elim h [ ]
take-append_le (suc n) (x ∷ xs) ys h = ap (λ l. x ∷ l) (take-append_le n xs ys (omega arith))

pub length-take_le : (n : ℕ) (xs : List ℕ) → n ≤ length xs → length (take n xs) ≡ n
length-take_le zero xs h = refl
length-take_le (suc n) [] h = elim h [ ]
length-take_le (suc n) (x ∷ xs) h = ap suc (length-take_le n xs (omega arith))

take-take : (n m : ℕ) (xs : List ℕ) → n ≤ m → take n (take m xs) ≡ take n xs
take-take zero m xs h = refl
take-take (suc n) zero xs h = elim h [ ]
take-take (suc n) (suc m) [] h = refl
take-take (suc n) (suc m) (x ∷ xs) h = ap (λ l. x ∷ l) (take-take n m xs (omega arith))

-- What the receiver has after it: the first `n` bytes of the payload over those of its buffer.
abbrev pub received : Message → Message → ℕ → Message
received msg into n = record {
  cmd = msg.cmd;
  rqrs = msg.rqrs;
  data_len = n;
  content = take n msg.content ++ drop n into.content;
}

read-payload :
    (n m : ℕ) (payload memory : List ℕ)
    → payload ≡ take m memory
    → length payload ≡ m
    → n ≤ m
    → m ≤ length memory
    → (behind : List ℕ) → read_bytes n (payload ++ behind) ≡ some (take n memory)
read-payload n m payload memory e len le room behind =
    read_bytes-take n (payload ++ behind) (omega (arith, length-append payload behind))
    ∙ ap some (take-append_le n payload behind (omega arith) ∙ rw e (take-take n m memory le))

deserialize-frame :
    (msg into : Message) (payload stale : List ℕ) (n : ℕ)
    → n ≡ msg.data_len % 256
    → calculate_checksum (frame msg payload) ≡ 0
    → read_bytes msg.data_len msg.content ≡ some payload
    → msg.cmd < 128
    → msg.rqrs < 2
    → n ≤ length into.content
    → deserialize into (frame msg payload) stale ≡ some (e_ok, received msg into n)
unfolding deserialize
deserialize-frame msg into payload stale n en ok got cmd rqrs room =
    let zero_sum : (calculate_checksum (frame msg payload) == 0) ≡ true = ground arith in
    let from_header : (msg.data_len * 256) % 256 * 256 + msg.data_len % 256 ≡ n = omega arith in
    let (enough, len, taken) = read_bytes-enough msg.data_len msg.content payload got in
    let taken_in : length (take n msg.content) ≡ n = length-take_le n msg.content (omega arith) in
    let written = write_bytes-drop (take n msg.content) into.content (omega (arith, taken_in)) in
    let read = read-payload n msg.data_len payload msg.content taken len (omega arith) enough in
    let upper : (msg.cmd * 2 + msg.rqrs) % 256 / 2 ≡ msg.cmd = omega arith in
    let lower : (msg.cmd * 2 + msg.rqrs) % 256 % 2 ≡ msg.rqrs = omega arith in
    rw (zero_sum, from_header, append_assoc, read, written, upper, lower, taken_in)

-- A message of fewer than 256 bytes is received as it was sent, with its payload over the start of
-- the receiver's buffer, which has room for it. Stale bytes behind the datagram do no harm.
pub deserialize-serialize :
    (msg into : Message) (bytes stale : List ℕ)
    → serialize msg ≡ some bytes
    → msg.cmd < 128
    → msg.rqrs < 2
    → msg.data_len < 256
    → msg.data_len ≤ length into.content
    → deserialize into bytes stale ≡ some (e_ok, received msg into msg.data_len)
deserialize-serialize msg into bytes stale e cmd rqrs small room =
    let (payload, got, fits, same) = serialize-frame msg bytes e in
    rw same (
      deserialize-frame msg into payload stale msg.data_len (omega arith)
        (rw same at (serialize-checksum msg bytes e)) got cmd rqrs room)

-- A longer message passes the checksum too, but arrives as the first `data_len % 256` bytes: the
-- upper byte of the length is lost by the sender.
pub deserialize-long :
    (msg into : Message) (bytes stale : List ℕ)
    → serialize msg ≡ some bytes
    → msg.cmd < 128
    → msg.rqrs < 2
    → 256 ≤ msg.data_len
    → msg.data_len % 256 ≤ length into.content
    → (deserialize into bytes stale ≡ some (e_ok, received msg into (msg.data_len % 256)))
      × (msg.data_len % 256 < msg.data_len)
deserialize-long msg into bytes stale e cmd rqrs long room =
    let (payload, got, fits, same) = serialize-frame msg bytes e in
    (
      rw same (
          deserialize-frame msg into payload stale (msg.data_len % 256) refl
            (rw same at (serialize-checksum msg bytes e)) got cmd rqrs room),
      omega arith,
    )
