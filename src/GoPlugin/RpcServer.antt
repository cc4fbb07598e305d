-- ===== src/GoPlugin/RpcServer.antt =====
-- crates/go-plugin/src/rpc_server.rs, `RPCServer`, with the messages and method names of rpc_codec.rs
-- and `next_id` of mux_broker.rs. The encodings of MessagePack are parameters. What a round of
-- `serve_conn` reads and whether its writes succeed is a record. The replies are a list.
pub mod Answers
pub mod Replies
mod Tests
use kalidokit_rust.Base.{
  ℕ, zero, suc, ◌+◌, ◌*◌, ◌-◌, ◌%◌, ◌^◌, Bool, true, false, ◌&&◌, ◌||◌, Option, none, some, List,
  [], ◌∷◌, ◌++◌, String, str_eq, ltb, length, take, if◌then◌else◌,
}
use Prim.Native.String.{◌++◌ as str_append}
use kalidokit_rust.Base.Result.{Result, ok, err}
use kalidokit_rust.Video.AnnexB.{Bytes, be_value}
use kalidokit_rust.Video.AnnexB.Laws.{be_bytes}

pub record RpcRequest : Type 0 where
  pub service_method : String
  pub seq : ℕ

pub record RpcResponse : Type 0 where
  pub service_method : String
  pub seq : ℕ
  pub error : String

abbrev pub control_ping : String
control_ping = "Control.Ping"

abbrev pub control_quit : String
control_quit = "Control.Quit"

abbrev pub dispenser_dispense : String
dispenser_dispense = "Dispenser.Dispense"

-- The server with the counter of its broker; the plugins by their names.
pub record RpcServer : Type 0 where
  pub next_id : ℕ
  pub plugins : List String
  pub shutdown : Bool

pub record Codec : Type 0 where
  -- A request header, and the bytes after it.
  pub decode_request_header : Bytes → Result String (RpcRequest × Bytes)
  pub decode_name : Bytes → Result String String
  pub encode_response : RpcResponse → Bytes → Result String Bytes
  pub unit_body : Bytes
  pub id_body : ℕ → Bytes

-- A round of the loop: the bytes that `read` gave for the length, none at the end or on an error; the
-- body, if `read_exact` has all of it; and whether both writes succeed.
pub record Round : Type 0 where
  pub length_read : Option Bytes
  pub body : ℕ → Option Bytes
  pub written : Bool

unfoldable pub contains : String → List String → Bool
contains name [] = false
contains name (p ∷ plugins) = str_eq p name || contains name plugins

abbrev pub answer : RpcRequest → String → RpcResponse
answer req error = record { service_method = req.service_method; seq = req.seq; error = error }

module _ (codec : Codec) where
  -- The request of a plugin. The counter is a u32 that wraps.
  unfoldable pub dispense :
      RpcServer → RpcRequest → Result String String → RpcServer × (RpcResponse × Bytes)
  unfolding contains
  dispense self req (ok name) =
      if contains name self.plugins
      then (
        record self { next_id = (self.next_id + 1) % 2 ^ 32 },
        (answer req "", codec.id_body self.next_id),
      )
      else (self, (answer req (str_append "unknown plugin: " name), codec.unit_body))
  dispense self req (err e) =
      (self, (answer req (str_append "decode dispense name: " e), codec.unit_body))

  unfoldable pub handle_request : RpcServer → RpcRequest → Bytes → RpcServer × (RpcResponse × Bytes)
  unfolding dispense
  handle_request self req body =
      if str_eq req.service_method control_ping
      then (self, (answer req "", codec.unit_body))
      else if str_eq req.service_method control_quit
      then (record self { shutdown = true }, (answer req "", codec.unit_body))
      else if str_eq req.service_method dispenser_dispense
      then dispense self req (codec.decode_name body)
      else (self, (answer req (str_append "unknown method: " req.service_method), codec.unit_body))

  -- A buffer of four bytes of which `read` filled some; the rest are zeros.
  unfoldable pub len_buf : Bytes → Bytes
  len_buf read = take 4 (read ++ 0 ∷ 0 ∷ 0 ∷ 0 ∷ [])

  abbrev pub framed : Bytes → Bytes
  framed encoded = be_bytes 4 (length encoded % 2 ^ 32) ++ encoded

  -- What a round comes to: the server, and the reply with whether the loop goes on, or its end.
  unfoldable pub reply_to :
      RpcServer → Bool → RpcRequest → Bytes → RpcServer × Option (Bytes × Bool)
  unfolding handle_request
  reply_to self written req body =
      let (self', (resp, resp_body)) = handle_request self req body in
      elim (codec.encode_response resp resp_body) [
        | err e ↦ (self', none)
        | ok encoded ↦
            if written
            then (self', some (framed encoded, str_eq req.service_method control_quit))
            else (self', none)
      ]

  unfoldable pub read_message : RpcServer → Bool → Bytes → RpcServer × Option (Bytes × Bool)
  unfolding reply_to
  read_message self written msg_buf = elim (codec.decode_request_header msg_buf) [
    | err e ↦ (self, none)
    | ok decoded ↦ reply_to self written decoded.0 decoded.1
  ]

  unfoldable pub serve_round : RpcServer → Round → RpcServer × Option (Bytes × Bool)
  unfolding read_message be_value len_buf
  serve_round self round = elim round.length_read [
    | none ↦ (self, none)
    | some read ↦
        let msg_len = be_value 0 (len_buf read) in
        let found = round.body msg_len in
        if ltb (10 * 1024 * 1024) msg_len then (self, none) else elim found [
          | none ↦ (self, none)
          | some msg_buf ↦ read_message self round.written msg_buf
        ]
  ]

  -- `serve_conn`: the rounds until one ends the loop.
  unfoldable pub after_round :
      Option (Bytes × Bool) → RpcServer → RpcServer × List Bytes → RpcServer × List Bytes
  after_round none self rest = (self, [])
  after_round (some (reply, true)) self rest = (self, reply ∷ [])
  after_round (some (reply, false)) self rest = (rest.0, reply ∷ rest.1)

  unfoldable pub serve_conn : RpcServer → List Round → RpcServer × List Bytes
  unfolding serve_round after_round
  serve_conn self [] = (self, [])
  serve_conn self (round ∷ rounds) =
      let (self', outcome) = serve_round self round in
      let going = after_round outcome self' (serve_conn self' rounds) in
      if self.shutdown then (self, []) else going
