-- ===== src/Rpc/Server.antt =====
-- `rpc_intf_sendto` and `rpc_intf_recvfrom` of rpc_intf/intf/rpc_intf.c, and a round of the server's
-- loop of rpc_intf/src/server.c. What the socket delivers and the result of its `send` are
-- arguments; the addresses are left out.
use code_snippet.Prelude.{
  ℕ, zero, suc, ◌+◌, ◌-◌, ◌%◌, length-append, take-append, ◌≤◌, ◌<◌, ◌≡◌, ◌≢◌, refl, ap, Option,
  none, some, List, [], ◌∷◌, ◌++◌, ℤ, pos, length, take, drop, ltb, ltb_ℤ, ◌==ℤ◌, ◌>>=◌, arith,
  if◌then◌else◌, false,
}
use code_snippet.Rpc.Message.{
  Message, rpc_buffer_size, e_ok, e_send, e_recv, e_checksum, calculate_checksum, serialize,
  deserialize,
}
use code_snippet.Rpc.Checksum.{body, frame, serialize-frame, deserialize-rejects}
use code_snippet.Rpc.Commands.{Handler, rpc_cmd_run}
use code_snippet.Rpc.RoundTrip.{
  received, length-take_le, read_bytes-enough, read_bytes-take, deserialize-serialize,
}

-- The status, and the bytes that the socket was given.
unfoldable pub sendto : (send : List ℕ → ℤ) → Message → Option (ℤ × List ℕ)
sendto send msg = do
  bytes ← serialize msg
  some ((if ltb_ℤ (send bytes) (pos 0) then e_send else send bytes), bytes)

-- `datagram` is what is received, `none` for an error; a longer one than the buffer is cut. `buf`
-- is the static buffer. The result is the status, the message and the buffer.
unfoldable pub recvfrom :
    (datagram : Option (List ℕ)) → List ℕ → Message → Option (ℤ × Message × List ℕ)
recvfrom none buf msg = some (e_recv, msg, buf)
recvfrom (some datagram) buf msg =
    let bytes = take rpc_buffer_size datagram in
    let stale = drop (length bytes) buf in
    do
      (status, msg') ← deserialize msg bytes stale
      some ((if status ==ℤ e_ok then pos (length bytes) else e_checksum), msg', bytes ++ stale)

-- What the server keeps from round to round: `rq` and the buffer. The content of `rq` is what its
-- pointer to the data has room for; `main` leaves this pointer without a value.
pub record Server : Type 0 where
  pub rq : Message
  pub buf : List ℕ

-- A round: the reply, the handler called, and the new state. The statuses are not read.
unfoldable pub serve :
    (send : List ℕ → ℤ) → Option (List ℕ) → Server → Option (List ℕ × Option Handler × Server)
serve send datagram s = do
  (_, rq, buf) ← recvfrom datagram s.buf s.rq
  let (_, rs, called) = rpc_cmd_run rq
  (_, reply) ← sendto send (record rs { rqrs = 1 })
  some (reply, called, record { rq = rq; buf = buf })

rpc_cmd_run-copy : (rq : Message) → (rpc_cmd_run rq).1 ≡ rq
unfolding rpc_cmd_run
rpc_cmd_run-copy rq = ground arith

take_all : (n : ℕ) (xs : List ℕ) → length xs ≤ n → take n xs ≡ xs
take_all zero [] h = refl
take_all zero (x ∷ xs) h = elim h [ ]
take_all (suc n) [] h = refl
take_all (suc n) (x ∷ xs) h = ap (λ l. x ∷ l) (take_all n xs (omega arith))

take-prefix : (n : ℕ) (xs ys : List ℕ) → length xs ≡ n → take n (xs ++ ys) ≡ xs
take-prefix n xs ys e = rw (← e) (take-append xs ys)

-- What is sent for a message whose payload is at hand.
pub serialize-take :
    (msg : Message)
    → msg.data_len ≤ length msg.content
    → msg.data_len + 4 ≤ rpc_buffer_size
    → serialize msg ≡ some (frame msg (take msg.data_len msg.content))
unfolding serialize
serialize-take msg enough fits =
    let in_buffer : ltb rpc_buffer_size (msg.data_len + 4) ≡ false = ground arith in
    rw (read_bytes-take msg.data_len msg.content enough, in_buffer)

length-bytes :
    (msg : Message) (bytes : List ℕ) → serialize msg ≡ some bytes → length bytes ≤ rpc_buffer_size
length-bytes msg bytes e =
    let (payload, got, fits, same) = serialize-frame msg bytes e in
    let (enough, len, taken) = read_bytes-enough msg.data_len msg.content payload got in
    rw same (
      omega
        (arith, length-append payload (((256 - calculate_checksum (body msg payload)) % 256) ∷ [])))

-- The response to a request: the request with `rqrs` set to RQRS_RESPONSE.
abbrev pub response : Message → Message
response msg = record msg { rqrs = 1 }

-- A round of the server on a request: what it sends is the response to what it has received.
pub serve_replies :
    (send : List ℕ → ℤ) (msg : Message) (s : Server) (bytes : List ℕ)
    → serialize msg ≡ some bytes
    → msg.cmd < 128
    → msg.rqrs < 2
    → msg.data_len < 256
    → msg.data_len ≤ length s.rq.content
    → let rq = received msg s.rq msg.data_len in
      (reply : List ℕ) × (t : Server) × (serve send (some bytes) s
        ≡ some (reply, (rpc_cmd_run rq).2, t))
      × (serialize (response rq) ≡ some reply)
      × (t.rq ≡ rq)
      × (take msg.data_len rq.content ≡ take msg.data_len msg.content)
unfolding serve recvfrom sendto
serve_replies send msg s bytes e cmd rqrs small room =
    let n : ℕ = msg.data_len in
    let rq : Message = received msg s.rq n in
    let stale_buf : List ℕ = drop (length bytes) s.buf in
    let (payload, got, fits, same) = serialize-frame msg bytes e in
    let (enough, len, taken) = read_bytes-enough n msg.content payload got in
    let prefix : length (take n msg.content) ≡ n = length-take_le n msg.content enough in
    let full : n ≤ length rq.content =
      omega (arith, prefix, length-append (take n msg.content) (drop n s.rq.content)) in
    let sent = serialize-take (response rq) full fits in
    (
      frame (response rq) (take n rq.content),
      record { rq = rq; buf = bytes ++ stale_buf },
      rw (
        take_all rpc_buffer_size bytes (length-bytes msg bytes e),
        deserialize-serialize msg s.rq bytes stale_buf e cmd rqrs small room,
        rpc_cmd_run-copy,
        sent,
      ),
      sent,
      refl,
      take-prefix n (take n msg.content) (drop n s.rq.content) prefix,
    )

-- The server answers a request of fewer than 256 bytes that it has room for. A client that has room
-- reads from the reply the same command, with the flag of a response and the same payload.
pub serve-answers :
    (send : List ℕ → ℤ) (msg client : Message) (s : Server) (bytes stale : List ℕ)
    → serialize msg ≡ some bytes
    → msg.cmd < 128
    → msg.rqrs < 2
    → msg.data_len < 256
    → msg.data_len ≤ length s.rq.content
    → msg.data_len ≤ length client.content
    → let rq = received msg s.rq msg.data_len in
      (reply : List ℕ) × (t : Server) × (serve send (some bytes) s
        ≡ some (reply, (rpc_cmd_run rq).2, t))
      × (deserialize client reply stale ≡ some (e_ok, received (response msg) client msg.data_len))
serve-answers send msg client s bytes stale e cmd rqrs small room client_room =
    let rq : Message = received msg s.rq msg.data_len in
    let (reply, t, serves, sent, kept, again) =
      serve_replies send msg s bytes e cmd rqrs small room in
    (
      reply,
      t,
      serves,
      rw (
        deserialize-serialize (response rq) client reply stale sent cmd (omega arith) small
            client_room,
        again,
      ),
    )

-- A client that has room receives a message as it was sent.
pub recvfrom-serialize :
    (msg into : Message) (bytes buf : List ℕ)
    → serialize msg ≡ some bytes
    → msg.cmd < 128
    → msg.rqrs < 2
    → msg.data_len < 256
    → msg.data_len ≤ length into.content
    → recvfrom (some bytes) buf into
      ≡ some (pos (length bytes), received msg into msg.data_len, bytes ++ drop (length bytes) buf)
unfolding recvfrom
recvfrom-serialize msg into bytes buf e cmd rqrs small room = rw (
  take_all rpc_buffer_size bytes (length-bytes msg bytes e),
  deserialize-serialize msg into bytes (drop (length bytes) buf) e cmd rqrs small room,
)

-- After a datagram that the checksum refuses, the server handles and answers the request that it
-- received before once more.
pub serve-repeats :
    (send : List ℕ → ℤ) (s : Server) (datagram reply : List ℕ)
    → length datagram ≤ rpc_buffer_size
    → calculate_checksum datagram ≢ 0
    → serialize (response s.rq) ≡ some reply
    → (buf : List ℕ) × (serve send (some datagram) s
        ≡ some (reply, (rpc_cmd_run s.rq).2, record { rq = s.rq; buf = buf }))
unfolding serve recvfrom sendto
serve-repeats send s datagram reply fits bad e = (
  datagram ++ drop (length datagram) s.buf,
  rw (
    take_all rpc_buffer_size datagram fits,
    deserialize-rejects s.rq datagram (drop (length datagram) s.buf) bad,
    rpc_cmd_run-copy,
    e,
  ),
)
