-- ===== src/GoPlugin/RpcServer/Replies.antt =====
-- What `serve_conn` (crates/go-plugin/src/rpc_server.rs) writes, for messages that arrive whole.
use kalidokit_rust.Base.{
  ◌%◌, ◌^◌, ℕ, ◌*◌, ◌≤◌, ◌≡◌, refl, sym, ap, ◌∙◌, Bool, true, false, none, some, List, [], ◌∷◌,
  ◌++◌, map, All, String, str_eq, le→ltb, ◌==◌, ==-refl, length, take, take-append, arith, if_elim,
  if◌then◌else◌,
}
use kalidokit_rust.Base.Result.{ok}
use kalidokit_rust.Video.AnnexB.{Bytes, be_value}
use kalidokit_rust.Video.AnnexB.Laws.{be_bytes, length-be_bytes, be_value-be_bytes}
use kalidokit_rust.GoPlugin.RpcServer.{
  RpcResponse, RpcServer, Codec, Round, control_quit, handle_request, len_buf, framed, reply_to,
  read_message, serve_round, after_round, serve_conn,
}
use kalidokit_rust.GoPlugin.RpcServer.Answers.{
  Message, true-ne_false, Answers, Handled, handle_request-Handled,
}

-- A round that finds a message behind its length, whole, and whose writes succeed.
abbrev pub round_of : Message → Round
round_of m = record {
  length_read = some (be_bytes 4 (length m.bytes));
  body = λ n. if n == length m.bytes then some m.bytes else none;
  written = true;
}

module _ (codec : Codec) where
  abbrev pub Holds : Message → Type 0
  Holds m =
      (codec.decode_request_header m.bytes ≡ ok (m.request, m.body))
      × (length m.bytes ≤ 10 * 1024 * 1024)

  len_buf-whole : (n : ℕ) → len_buf codec (be_bytes 4 n) ≡ be_bytes 4 n
  unfolding len_buf
  len_buf-whole n =
      ap (λ (k : ℕ). take k (be_bytes 4 n ++ 0 ∷ 0 ∷ 0 ∷ 0 ∷ [])) (sym (length-be_bytes 4 n))
      ∙ take-append (be_bytes 4 n) (0 ∷ 0 ∷ 0 ∷ 0 ∷ [])

  module _ (encoded : RpcResponse → Bytes → Bytes)
      (encodes : (resp : RpcResponse) (body : Bytes)
        → codec.encode_response resp body ≡ ok (encoded resp body)) where
    abbrev frame_of : RpcResponse × Bytes → Bytes
    frame_of reply = framed codec (encoded reply.0 reply.1)

    -- The reply to a message, with that error and body: the method and the number of the request are in
    -- it, and the length of its encoding stands before that, big-endian in four bytes.
    pub record IsReply (m : Message) (error : String) (body frame : Bytes) : Type 0 where
      pub header : Bytes
      pub four_bytes : length header ≡ 4
      pub reply_bytes : Bytes
      pub reply_encoded :
          reply_bytes
          ≡ encoded
              (record {
                service_method = m.request.service_method;
                seq = m.request.seq;
                error = error;
              })
              body
      pub its_length : be_value 0 header ≡ length reply_bytes % 2 ^ 32
      pub behind_header : frame ≡ header ++ reply_bytes

    -- The messages that come in and the replies that go out, from a number for the next connection to
    -- the number at the end, and whether a request quit.
    pub data Dialogue (plugins : List String)
        : ℕ → List Message → List Bytes → ℕ → Bool → Type 0 where
      hung_up : (id : ℕ) → Dialogue plugins id [] [] id false
      last :
          (id id' : ℕ) (m : Message) (ms : List Message) (error : String) (body frame : Bytes)
          → Answers codec plugins id m error body id' true
          → IsReply m error body frame
          → Dialogue plugins id (m ∷ ms) (frame ∷ []) id' true
      more :
          (id id' end : ℕ) (m : Message) (ms : List Message) (error : String) (body frame : Bytes)
          (out : List Bytes) (quits : Bool)
          → Answers codec plugins id m error body id' false
          → IsReply m error body frame
          → Dialogue plugins id' ms out end quits
          → Dialogue plugins id (m ∷ ms) (frame ∷ out) end quits

    frame_of-IsReply :
        (self : RpcServer) (m : Message) (r : RpcServer × (RpcResponse × Bytes))
        → Handled codec self m r
        → IsReply m r.1.0.error r.1.1 (frame_of r.1)
    frame_of-IsReply self m r h =
        let whole = encoded r.1.0 r.1.1 in
        record {
          header = be_bytes 4 (length whole % 2 ^ 32);
          four_bytes = length-be_bytes 4 (length whole % 2 ^ 32);
          reply_bytes = whole;
          reply_encoded = ap (λ (resp : RpcResponse). encoded resp r.1.1) h.echo;
          its_length = be_value-be_bytes 4 (length whole % 2 ^ 32) (omega arith);
          behind_header = refl;
        }

    serve_round-reply :
        (self : RpcServer) (m : Message)
        → Holds m
        → let r = handle_request codec self m.request m.body in
          serve_round codec self (round_of m)
          ≡ (r.0, some (frame_of r.1, str_eq m.request.service_method control_quit))
    unfolding serve_round read_message reply_to
    serve_round-reply self m (decodes, small) =
        let value : be_value 0 (len_buf codec (be_bytes 4 (length m.bytes))) ≡ length m.bytes =
          ap (be_value 0) (len_buf-whole (length m.bytes))
          ∙ be_value-be_bytes 4 (length m.bytes) (omega arith) in
        let r = handle_request codec self m.request m.body in
        rw (value, le→ltb (10 * 1024 * 1024) (length m.bytes) small, ==-refl (length m.bytes))
          (rw (decodes, read_message) (rw (encodes r.1.0 r.1.1, reply_to) refl))

    round_on :
        (self : RpcServer) (m : Message) (ms : List Message) (quits : Bool)
        (rest : RpcServer × List Bytes)
        → (let r = handle_request codec self m.request m.body in
            Handled codec self m r
            → str_eq m.request.service_method control_quit ≡ quits
            → (quits ≡ false
                → Dialogue r.0.plugins r.0.next_id ms rest.1 rest.0.next_id rest.0.shutdown)
            → let done = after_round codec (some (frame_of r.1, quits)) r.0 rest in
              Dialogue self.plugins self.next_id (m ∷ ms) done.1 done.0.next_id done.0.shutdown)
    unfolding after_round
    round_on self m ms true rest h e going =
        let r = handle_request codec self m.request m.body in
        rw (h.down, e)
          (last self.next_id r.0.next_id m ms r.1.0.error r.1.1 (frame_of r.1) (rw e at h.answers)
            (frame_of-IsReply self m r h))
    round_on self m ms false rest h e going =
        let r = handle_request codec self m.request m.body in
        more self.next_id r.0.next_id rest.0.next_id m ms r.1.0.error r.1.1 (frame_of r.1) rest.1
          rest.0.shutdown (rw e at h.answers) (frame_of-IsReply self m r h)
          (rw h.same_plugins at going refl)

    -- A server that is not shut down, and messages of at most 10 MiB that arrive whole behind their
    -- lengths; the responses can be encoded and the writes succeed. `serve_conn` writes one reply for
    -- each message, in order, to the first that quits, each behind the length of its encoding as a
    -- u32. A ping and the request to quit get an empty error; a request of a plugin gets the number of
    -- the next connection, which then goes up by one as a u32, if the server has the plugin, and
    -- otherwise an error; so does any other method. At the end the server is shut down exactly when a
    -- request quit.
    pub serve_conn-replies :
        (ms : List Message) (self : RpcServer)
        → self.shutdown ≡ false
        → All Holds ms
        → let (self', out) = serve_conn codec self (map round_of ms) in
          Dialogue self.plugins self.next_id ms out self'.next_id self'.shutdown
    unfolding serve_conn
    serve_conn-replies [] self up h = rw up (hung_up self.next_id)
    serve_conn-replies (m ∷ ms) self up h =
        let r = handle_request codec self m.request m.body in
        let handled = handle_request-Handled codec self m up in
        let Goal : RpcServer × List Bytes → Type 0 =
          λ t. Dialogue self.plugins self.next_id (m ∷ ms) t.1 t.0.next_id t.0.shutdown in
        if_elim Goal self.shutdown _ _ (λ e. absurd (true-ne_false (sym e ∙ up)))
          (λ _. rw (serve_round-reply self m h.0) (
            round_on self m ms (str_eq m.request.service_method control_quit)
              (serve_conn codec r.0 (map round_of ms)) handled refl
              (λ other. serve_conn-replies ms r.0 (handled.down ∙ other) h.1)))
