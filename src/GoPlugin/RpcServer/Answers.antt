-- ===== src/GoPlugin/RpcServer/Answers.antt =====
-- What `handle_request` (crates/go-plugin/src/rpc_server.rs) answers, described by the texts of requests.
use kalidokit_rust.Base.{
  ◌+◌, ◌%◌, ◌^◌, ◌≢◌, eq_iff, ℕ, zero, suc, ◌≡◌, refl, sym, ap, ◌∙◌, Bool, true, false, some, List,
  [], ◌∷◌, String, str_eq, get_elem?, if_elim, Bool-cases, inl, inr, some-injective,
}
use Prim.Native.String.{◌++◌ as str_append}
use kalidokit_rust.Base.Result.{Result, ok, err}
use kalidokit_rust.Video.AnnexB.{Bytes}
use kalidokit_rust.GoPlugin.RpcServer.{
  RpcRequest, RpcResponse, RpcServer, Codec, control_quit, control_ping, dispenser_dispense,
  contains, dispense, handle_request,
}

-- A message of a client: its bytes, and the request and the body that they hold.
pub record Message : Type 0 where
  pub bytes : Bytes
  pub request : RpcRequest
  pub body : Bytes

pub true-ne_false : Path Bool true false → ⊥
true-ne_false h = cc

module _ (codec : Codec) where
  abbrev pub HasPlugin : String → List String → Type 0
  HasPlugin name plugins = (i : ℕ) × (get_elem? plugins i ≡ some name)

  -- What a request is answered with by a server with those plugins, whose next connection has that
  -- number: the error and the body, the number for the connection after it, and whether it quits.
  pub data Answers (plugins : List String) (id : ℕ) (m : Message)
      : String → Bytes → ℕ → Bool → Type 0 where
    ponged :
        m.request.service_method ≡ "Control.Ping" → Answers plugins id m "" codec.unit_body id false
    quitted :
        m.request.service_method ≡ "Control.Quit" → Answers plugins id m "" codec.unit_body id true
    dispensed :
        (name : String)
        → m.request.service_method ≡ "Dispenser.Dispense"
        → codec.decode_name m.body ≡ ok name
        → HasPlugin name plugins
        → Answers plugins id m "" (codec.id_body id) ((id + 1) % 2 ^ 32) false
    unknown_plugin :
        (name : String)
        → m.request.service_method ≡ "Dispenser.Dispense"
        → codec.decode_name m.body ≡ ok name
        → ¬ HasPlugin name plugins
        → Answers plugins id m (str_append "unknown plugin: " name) codec.unit_body id false
    bad_name :
        (e : String)
        → m.request.service_method ≡ "Dispenser.Dispense"
        → codec.decode_name m.body ≡ err e
        → Answers plugins id m (str_append "decode dispense name: " e) codec.unit_body id false
    unknown_method :
        m.request.service_method ≢ "Control.Ping"
        → m.request.service_method ≢ "Control.Quit"
        → m.request.service_method ≢ "Dispenser.Dispense"
        → Answers plugins id m
            (str_append "unknown method: " m.request.service_method)
            codec.unit_body
            id
            false

  contains→HasPlugin :
      (name : String) (plugins : List String)
      → contains name plugins ≡ true
      → HasPlugin name plugins
  unfolding contains
  contains→HasPlugin name [] h = cc
  contains→HasPlugin name (p ∷ plugins) h = elim (Bool-cases (str_eq p name)) [
    | inl e ↦ (0, ap some ((eq_iff p name).0 e))
    | inr e ↦ let (i, at) = contains→HasPlugin name plugins (rw e at h) in (suc i, at)
  ]

  HasPlugin→contains :
      (name : String) (plugins : List String)
      → HasPlugin name plugins
      → contains name plugins ≡ true
  unfolding contains
  HasPlugin→contains name [] (i, at) = cc
  HasPlugin→contains name (p ∷ plugins) (zero, at) =
      rw ((eq_iff p name).1 (some-injective _ _ at)) refl
  HasPlugin→contains name (p ∷ plugins) (suc i, at) = elim (Bool-cases (str_eq p name)) [
    | inl e ↦ rw e refl
    | inr e ↦ rw e (HasPlugin→contains name plugins (i, at))
  ]

  -- What a server does with a request.
  pub record Handled (self : RpcServer) (m : Message) (r : RpcServer × (RpcResponse × Bytes))
      : Type 0 where
    pub answers :
        Answers self.plugins self.next_id m r.1.0.error r.1.1 r.0.next_id
          (str_eq m.request.service_method control_quit)
    pub same_plugins : r.0.plugins ≡ self.plugins
    pub down : r.0.shutdown ≡ str_eq m.request.service_method control_quit
    pub echo : r.1.0 ≡ record {
      service_method = m.request.service_method;
      seq = m.request.seq;
      error = r.1.0.error;
    }

  dispense-Handled :
      (self : RpcServer) (m : Message) (name : Result String String)
      → self.shutdown ≡ false
      → m.request.service_method ≡ dispenser_dispense
      → codec.decode_name m.body ≡ name
      → Handled self m (dispense codec self m.request name)
  unfolding dispense
  dispense-Handled self m (err e) up at d =
      let other : str_eq m.request.service_method control_quit ≡ false = rw at refl in
      record {
        answers = rw other (bad_name e at d);
        same_plugins = refl;
        down = up ∙ sym other;
        echo = refl;
      }
  dispense-Handled self m (ok name) up at d =
      let other : str_eq m.request.service_method control_quit ≡ false = rw at refl in
      if_elim (Handled self m) (contains name self.plugins) _ _
        (λ e. record {
          answers = rw other (dispensed name at d (contains→HasPlugin name self.plugins e));
          same_plugins = refl;
          down = up ∙ sym other;
          echo = refl;
        })
        (λ e. record {
          answers = rw other (
              unknown_plugin name at d
                (λ h. true-ne_false (sym (HasPlugin→contains name self.plugins h) ∙ e)));
          same_plugins = refl;
          down = up ∙ sym other;
          echo = refl;
        })

  str-ne : (a b : String) → str_eq a b ≡ false → a ≢ b
  str-ne a b h e = true-ne_false (sym ((eq_iff a b).1 e) ∙ h)

  pub handle_request-Handled :
      (self : RpcServer) (m : Message)
      → self.shutdown ≡ false
      → Handled self m (handle_request codec self m.request m.body)
  unfolding handle_request
  handle_request-Handled self m up =
      let method = m.request.service_method in
      if_elim (Handled self m) (str_eq method control_ping) _ _
        (λ e.
          let at = (eq_iff method control_ping).0 e in
          let other : str_eq method control_quit ≡ false = rw at refl in
          record {
            answers = rw other (ponged at);
            same_plugins = refl;
            down = up ∙ sym other;
            echo = refl;
          })
        (λ not_ping.
          if_elim (Handled self m) (str_eq method control_quit) _ _
            (λ e. record {
              answers = rw e (quitted ((eq_iff method control_quit).0 e));
              same_plugins = refl;
              down = sym e;
              echo = refl;
            })
            (λ other.
              if_elim (Handled self m) (str_eq method dispenser_dispense) _ _
                (λ e.
                  dispense-Handled self m (codec.decode_name m.body) up
                    ((eq_iff method dispenser_dispense).0 e) refl)
                (λ not_dispense. record {
                  answers = rw other (
                      unknown_method (str-ne method control_ping not_ping)
                        (str-ne method control_quit other)
                        (str-ne method dispenser_dispense not_dispense));
                  same_plugins = refl;
                  down = up ∙ sym other;
                  echo = refl;
                })))
