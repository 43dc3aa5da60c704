-- ===== src/Rpc/Client.antt =====
-- rpc_intf/src/client.c: the loop of `main`, against the server of rpc_intf/src/server.c, with a
-- socket that delivers each datagram once.
use code_snippet.Prelude.{
  none, ℕ, zero, suc, ◌+◌, ◌≡◌, ◌≤◌, ◌<◌, refl, ap, ap₂, ◌∙◌, map, replicate, Option, some, List,
  [], ◌∷◌, ℤ, length, drop, ◌++◌, arith, ◌>>=◌,
}
use code_snippet.Rpc.Message.{Message}
use code_snippet.Rpc.Checksum.{frame}
use code_snippet.Rpc.Commands.{
  Handler, login, exit, get_server_num, get_server_info, attach_server, detach_server,
  switch_rights, sol_data, rpc_cmd_list, find_handler, rpc_cmd_run,
}
use code_snippet.Rpc.RoundTrip.{received}
use code_snippet.Rpc.Server.{
  Server, sendto, recvfrom, serve, serialize-take, response, serve_replies, recvfrom-serialize,
}

-- What `main` keeps from round to round: `msg` and the static buffer of `rpc_intf_recvfrom`.
pub record Client : Type 0 where
  pub msg : Message
  pub buf : List ℕ

abbrev pub request : ℕ → Message → Message
request i msg = record msg { cmd = i; rqrs = 0; data_len = 0 }

-- The handlers of the commands from 0 to 15, as rpc_msg.h names the commands.
abbrev pub handlers : List (Option Handler)
handlers =
    some login
    ∷ some exit
    ∷ some get_server_num
    ∷ some get_server_info
    ∷ some attach_server
    ∷ some detach_server
    ∷ some switch_rights
    ∷ (replicate 8 none ++ (some sol_data ∷ []))

abbrev found_from : (i rounds : ℕ) → List (Option Handler)
found_from i zero = []
found_from i (suc rounds) = find_handler i rpc_cmd_list ∷ found_from (i + 1) rounds

found_from-handlers : found_from 0 16 ≡ handlers
unfolding find_handler
found_from-handlers = refl

-- The responses to the commands from `i` on, without data.
abbrev pub AreReplies : ℕ → List (Option Handler × Message) → Type 0
AreReplies i [] = Unit
AreReplies i (r ∷ rs) = (r.1.cmd ≡ i) × (r.1.rqrs ≡ 1) × (r.1.data_len ≡ 0) × AreReplies (i + 1) rs

module _ (send : List ℕ → ℤ) where
  -- A round: the handler that the server calls, the message that comes back, and the new states.
  unfoldable pub client_round :
      (i : ℕ) → Client → Server → Option (Option Handler × Client × Server)
  unfolding sendto recvfrom serve
  client_round i c s = do
    (_, bytes) ← sendto send (request i c.msg)
    (reply, called, s') ← serve send (some bytes) s
    (_, msg, buf) ← recvfrom (some reply) c.buf (request i c.msg)
    some (called, record { msg = msg; buf = buf }, s')

  unfoldable pub client_from :
      (rounds i : ℕ) → Client → Server → Option (List (Option Handler × Message) × Server)
  unfolding client_round
  client_from zero i c s = some ([], s)
  client_from (suc rounds) i c s = do
    (called, c', s') ← client_round i c s
    (rest, s'') ← client_from rounds (i + 1) c' s'
    some ((called, c'.msg) ∷ rest, s'')

  -- The loop for the commands from 0 to 0xF.
  unfoldable pub client_main : Client → Server → Option (List (Option Handler × Message) × Server)
  client_main c s = client_from 16 0 c s

  -- The server has called the handler of each command in turn, and the client got its responses.
  abbrev AreAnswered : ℕ → List (Option Handler × Message) → Type 0
  AreAnswered i [] = Unit
  AreAnswered i (r ∷ rs) =
      (r.0 ≡ find_handler i rpc_cmd_list)
      × (r.1.cmd ≡ i)
      × (r.1.rqrs ≡ 1)
      × (r.1.data_len ≡ 0)
      × AreAnswered (i + 1) rs

  calls-find_handler : (rq : Message) → (rpc_cmd_run rq).2 ≡ find_handler rq.cmd rpc_cmd_list
  unfolding rpc_cmd_run
  calls-find_handler rq = ground arith

  client_round-answers :
      (i : ℕ) (c : Client) (s : Server)
      → i < 128
      → (c' : Client) × (s' : Server) × (client_round i c s
          ≡ some (find_handler i rpc_cmd_list, c', s'))
        × (c'.msg.cmd ≡ i)
        × (c'.msg.rqrs ≡ 1)
        × (c'.msg.data_len ≡ 0)
  unfolding client_round sendto
  client_round-answers i c s h =
      let rq = request i c.msg in
      let answer = response (received rq s.rq 0) in
      let e = serialize-take rq (omega arith) (omega arith) in
      let (reply, s', serves, sent, kept, again) =
        serve_replies send rq s (frame rq []) e h (omega arith) (omega arith) (omega arith) in
      (
        record { msg = received answer rq 0; buf = reply ++ drop (length reply) c.buf },
        s',
        rw
            (
              e,
              serves,
              recvfrom-serialize answer rq reply c.buf sent h (omega arith) (omega arith)
                  (omega arith),
              calls-find_handler (received rq s.rq 0),
            )
            refl,
        refl,
        refl,
        refl,
      )

  client_from-AreAnswered :
      (rounds i : ℕ) (c : Client) (s : Server)
      → i + rounds ≤ 128
      → (rs : List (Option Handler × Message)) × (s' : Server) × (client_from rounds i c s
          ≡ some (rs, s'))
        × (length rs ≡ rounds)
        × AreAnswered i rs
  unfolding client_from
  client_from-AreAnswered zero i c s h = ([], s, refl, refl, tt)
  client_from-AreAnswered (suc rounds) i c s h =
      let (c', s', runs, cmd, rqrs, size) = client_round-answers i c s (omega (arith, h)) in
      let (rs, s'', more, len, answered) =
        client_from-AreAnswered rounds (i + 1) c' s' (omega (arith, h)) in
      (
        (find_handler i rpc_cmd_list, c'.msg) ∷ rs,
        s'',
        rw (runs, more) refl,
        ap suc len,
        (refl, cmd, rqrs, size, answered),
      )

  calls-AreAnswered :
      (i : ℕ) (rs : List (Option Handler × Message))
      → AreAnswered i rs
      → map (λ r. r.0) rs ≡ found_from i (length rs)
  calls-AreAnswered i [] a = refl
  calls-AreAnswered i (r ∷ rs) a = ap₂ (λ h hs. h ∷ hs) a.0 (calls-AreAnswered (i + 1) rs (a.4))

  replies-AreAnswered :
      (i : ℕ) (rs : List (Option Handler × Message)) → AreAnswered i rs → AreReplies i rs
  replies-AreAnswered i [] a = tt
  replies-AreAnswered i (r ∷ rs) (called, cmd, rqrs, size, rest) =
      (cmd, rqrs, size, replies-AreAnswered (i + 1) rs rest)

  -- Whatever the client and the server have in their buffers and in their last messages, with a
  -- socket that delivers every datagram once, the client's sixteen rounds are defined. For the
  -- commands from 0 to 6 and for 15 the server calls the handlers of login, exit, get_server_num,
  -- get_server_info, attach_server, detach_server, switch_rights and sol_data, and none for the
  -- others; the client reads back each command with the flag of a response and no data.
  pub client_main-AreReplies :
      (c : Client) (s : Server)
      → (rs : List (Option Handler × Message)) × (s' : Server) × (client_main c s ≡ some (rs, s'))
        × (map (λ r. r.0) rs ≡ handlers)
        × AreReplies 0 rs
  unfolding client_main
  client_main-AreReplies c s =
      let (rs, s', runs, len, answered) = client_from-AreAnswered 16 0 c s (omega arith) in
      (
        rs,
        s',
        runs,
        calls-AreAnswered 0 rs answered ∙ ap (found_from 0) len ∙ found_from-handlers,
        replies-AreAnswered 0 rs answered,
      )
