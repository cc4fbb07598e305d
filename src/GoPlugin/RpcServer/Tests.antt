-- ===== src/GoPlugin/RpcServer/Tests.antt =====
-- A server of one plugin, with an encoding of one byte for the method and one for the number.
use kalidokit_rust.Base.{
  ℕ, zero, suc, ◌≡◌, refl, true, false, [], ◌∷◌, List, String, map, All, arith,
}
use kalidokit_rust.Base.Result.{Result, ok, err}
use kalidokit_rust.Video.AnnexB.{Bytes, be_value}
use kalidokit_rust.Video.AnnexB.Laws.{be_bytes}
use kalidokit_rust.GoPlugin.RpcServer.{
  RpcRequest, RpcResponse, RpcServer, Codec, control_ping, control_quit, dispenser_dispense,
  contains, dispense, handle_request, len_buf, serve_conn, serve_round, read_message, reply_to,
  after_round,
}
use kalidokit_rust.GoPlugin.RpcServer.Answers.{Message}
use kalidokit_rust.GoPlugin.RpcServer.Replies.{round_of, Holds, Dialogue, serve_conn-replies}

abbrev method_of : ℕ → String
method_of zero = control_ping
method_of (suc zero) = dispenser_dispense
method_of (suc (suc n)) = control_quit

abbrev decode : Bytes → Result String (RpcRequest × Bytes)
decode (method ∷ (seq ∷ rest)) = ok (record { service_method = method_of method; seq = seq }, rest)
decode (method ∷ []) = err "short"
decode [] = err "short"

abbrev name_of : Bytes → Result String String
name_of [] = err "no name"
name_of (b ∷ bytes) = ok "greeter"

abbrev encoded : RpcResponse → Bytes → Bytes
encoded resp body = resp.seq ∷ body

abbrev codec : Codec
codec = record {
  decode_request_header = decode;
  decode_name = name_of;
  encode_response = λ resp body. ok (encoded resp body);
  unit_body = [];
  id_body = λ id. id ∷ [];
}

abbrev server : RpcServer
server = record { next_id = 7; plugins = "greeter" ∷ []; shutdown = false }

abbrev message : ℕ → ℕ → Bytes → Message
message method seq body = record {
  bytes = method ∷ (seq ∷ body);
  request = record { service_method = method_of method; seq = seq };
  body = body;
}

-- A ping, two requests of the plugin, the end, and a ping too late.
abbrev messages : List Message
messages =
    message 0 1 []
    ∷ message 1 2 (1 ∷ [])
    ∷ message 1 3 (1 ∷ [])
    ∷ message 2 4 []
    ∷ message 0 5 []
    ∷ []

replied : serve_conn codec server (map round_of messages) ≡ (
  record { next_id = 9; plugins = "greeter" ∷ []; shutdown = true },
  (0 ∷ 0 ∷ 0 ∷ 1 ∷ 1 ∷ [])
      ∷ (0 ∷ 0 ∷ 0 ∷ 2 ∷ 2 ∷ 7 ∷ [])
      ∷ (0 ∷ 0 ∷ 0 ∷ 2 ∷ 3 ∷ 8 ∷ [])
      ∷ (0 ∷ 0 ∷ 0 ∷ 1 ∷ 4 ∷ [])
      ∷ [],
)
unfolding be_bytes serve_conn serve_round read_message reply_to after_round len_buf be_value
    handle_request dispense contains
replied = refl

messages-Holds : All (Holds codec) messages
messages-Holds = (
  (refl, omega arith),
  ((refl, omega arith), ((refl, omega arith), ((refl, omega arith), ((refl, omega arith), tt)))),
)

-- One byte of a length of 7 arrives first: the other three are taken to be zeros.
abbrev short_read : Bytes
short_read = 0 ∷ []

length_lost : be_value 0 (len_buf codec short_read) ≡ 0
unfolding len_buf be_value
length_lost = refl

abbrev served : RpcServer × List Bytes
served = serve_conn codec server (map round_of messages)

serve_conn-replies_example :
    Dialogue codec encoded
      (λ resp body. refl)
      ("greeter" ∷ [])
      7
      messages
      served.1
      served.0.next_id
      served.0.shutdown
serve_conn-replies_example =
    serve_conn-replies codec encoded (λ resp body. refl) messages server refl messages-Holds
