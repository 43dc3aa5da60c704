-- ===== src/Rpc/Tests.antt =====
-- A request of two bytes on its way to the server and back, and a long one.
use code_snippet.Prelude.{
  map, ℕ, ◌≡◌, ◌≢◌, refl, Option, some, List, [], ◌∷◌, ◌++◌, ℤ, pos, replicate, arith,
}
use code_snippet.Prelude.Arrays.{set}
use code_snippet.Rpc.Message.{Message, e_ok, e_checksum, calculate_checksum, serialize, deserialize}
use code_snippet.Rpc.Checksum.{serialize-checksum, deserialize-corrupted}
use code_snippet.Rpc.RoundTrip.{received, deserialize-serialize}
use code_snippet.Rpc.Commands.{Handler, rpc_cmd_run}
use code_snippet.Rpc.Client.{client_main, handlers, AreReplies, client_main-AreReplies}
use code_snippet.Rpc.Server.{Server, serve, response, serve-answers}

abbrev request : Message
request = record { cmd = 1; rqrs = 0; data_len = 2; content = 7 ∷ 9 ∷ 11 ∷ [] }

abbrev wire : List ℕ
wire = 2 ∷ 2 ∷ 0 ∷ 7 ∷ 9 ∷ 236 ∷ []

abbrev blank : Message
blank = record { cmd = 0; rqrs = 0; data_len = 0; content = replicate 4 0 }

abbrev server : Server
server = record { rq = blank; buf = replicate 512 0 }

serialize_runs : serialize request ≡ some wire
unfolding serialize
serialize_runs = refl

abbrev long : Message
long = record { cmd = 1; rqrs = 0; data_len = 258; content = replicate 258 3 }

abbrev long_wire : List ℕ
long_wire = 2 ∷ 2 ∷ 0 ∷ (replicate 258 3 ++ (246 ∷ []))

serialize-long : serialize long ≡ some long_wire
unfolding serialize
serialize-long = refl

serialize-checksum_example : calculate_checksum wire ≡ 0
serialize-checksum_example = serialize-checksum request wire serialize_runs

deserialize-corrupted_example : deserialize blank (set wire 3 8) [] ≡ some (e_checksum, blank)
deserialize-corrupted_example =
    deserialize-corrupted request blank wire [] 3 8 serialize_runs (omega arith) (omega arith)
      (omega arith) (omega arith)

deserialize-serialize_example :
    deserialize blank wire (1 ∷ []) ≡ some (e_ok, record request { content = 7 ∷ 9 ∷ 0 ∷ 0 ∷ [] })
deserialize-serialize_example =
    deserialize-serialize request blank wire (1 ∷ []) serialize_runs (omega arith) (omega arith)
      (omega arith) (omega arith)

abbrev accept : List ℕ → ℤ
accept bytes = pos 6

serve-answers_example :
    let rq = received request blank 2 in
    (reply : List ℕ) × (t : Server) × (serve accept (some wire) server
      ≡ some (reply, (rpc_cmd_run rq).2, t))
    × (deserialize blank reply [] ≡ some (e_ok, received (response request) blank 2))
serve-answers_example =
    serve-answers accept request blank server wire [] serialize_runs (omega arith) (omega arith)
      (omega arith) (omega arith) (omega arith)

bad_checksum : calculate_checksum (1 ∷ []) ≢ 0
unfolding calculate_checksum
bad_checksum = omega arith

blank_reply : serialize (response blank) ≡ some (1 ∷ 0 ∷ 0 ∷ 255 ∷ [])
unfolding serialize
blank_reply = refl

client_main-AreReplies_example :
    (rs : List (Option Handler × Message)) × (t : Server) × (client_main accept
        (record { msg = blank; buf = [] })
        server
      ≡ some (rs, t))
    × (map (λ r. r.0) rs ≡ handlers)
    × AreReplies 0 rs
client_main-AreReplies_example =
    client_main-AreReplies accept (record { msg = blank; buf = [] }) server
