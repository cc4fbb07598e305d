-- ===== src/GoPlugin/Protocol.antt =====
-- crates/go-plugin/src/protocol.rs: the negotiation line, version lists and the magic cookie. Texts are
-- lists of code points. A `PluginError::Negotiation` is what its text is made of; of the errors,
-- those that this file gives.
pub mod RoundTrip
pub mod Versions
mod Tests
use kalidokit_rust.Base.{
  ℕ, ◌≡◌, Bool, true, false, not, ◌||◌, Option, none, some, List, [], ◌∷◌, map, length,
  if◌then◌else◌, ◌==◌, get_elem?,
}
use kalidokit_rust.Base.Text.{Text, codes, text_eq}
use kalidokit_rust.Base.Result.{Result, ok, err, map_err, ◌>>=◌}
use kalidokit_rust.GoPlugin.Digits.{IntError, parse_u32, to_string}
use kalidokit_rust.GoPlugin.Fields.{split, join, trim}

abbrev pub core_protocol_version : ℕ
core_protocol_version = 1

pub data Protocol : Type 0 where
  grpc net_rpc : Protocol

pub data NegotiationError : Type 0 where
  unknown_protocol : Text → NegotiationError
  too_few_fields : ℕ → Text → NegotiationError
  invalid_core_version invalid_app_version : IntError → NegotiationError

pub data PluginError : Type 0 where
  negotiation : NegotiationError → PluginError
  magic_cookie_mismatch : (key : Text) → PluginError
  core_protocol_version_mismatch : (host plugin : ℕ) → PluginError
  no_compatible_version : (host : List ℕ) (plugin : ℕ) → PluginError

unfoldable pub as_str : Protocol → Text
as_str grpc = codes "grpc"
as_str net_rpc = codes "netrpc"

unfoldable pub from_str : Text → Result PluginError Protocol
from_str s =
    if text_eq s (codes "grpc")
    then ok grpc
    else if text_eq s (codes "netrpc")
    then ok net_rpc
    else err (negotiation (unknown_protocol s))

pub record HandshakeConfig : Type 0 where
  pub protocol_version : ℕ
  pub magic_cookie_key : Text
  pub magic_cookie_value : Text

-- The environment gives the value of a variable, if it is set and is Unicode.
unfoldable pub validate_magic_cookie :
    (Text → Option Text) → HandshakeConfig → Result PluginError (Unit {0})
validate_magic_cookie env self = elim (env self.magic_cookie_key) [
  | some val ↦
      if text_eq val self.magic_cookie_value
      then ok tt
      else err (magic_cookie_mismatch self.magic_cookie_key)
  | none ↦ err (magic_cookie_mismatch self.magic_cookie_key)
]

pub record ServerNegotiationLine : Type 0 where
  pub core_version : ℕ
  pub app_version : ℕ
  pub network : Text
  pub address : Text
  pub protocol : Protocol
  pub server_cert : Option Text
  pub mux_supported : Bool

-- Fields 5 and 6, from what follows the first five.
unfoldable pub cert_of : List Text → Option Text
cert_of [] = none
cert_of ([] ∷ more) = none
cert_of ((c ∷ s) ∷ more) = some (c ∷ s)

unfoldable pub mux_of : List Text → Bool
mux_of [] = false
mux_of (cert ∷ []) = false
mux_of (cert ∷ mux ∷ more) = text_eq mux (codes "true")

unfoldable pub parse_parts : Text → List Text → Result PluginError ServerNegotiationLine
unfolding parse_u32 from_str cert_of mux_of
parse_parts line (core ∷ app ∷ network ∷ address ∷ protocol_text ∷ more) = do
  core_version ← map_err (λ e. negotiation (invalid_core_version e)) (parse_u32 core)
  app_version ← map_err (λ e. negotiation (invalid_app_version e)) (parse_u32 app)
  protocol ← from_str protocol_text
  ok (record {
    core_version = core_version;
    app_version = app_version;
    network = network;
    address = address;
    protocol = protocol;
    server_cert = cert_of more;
    mux_supported = mux_of more;
  })
parse_parts line parts = err (negotiation (too_few_fields (length parts) line))

unfoldable pub parse : Text → Result PluginError ServerNegotiationLine
unfolding parse_parts split trim
parse line = parse_parts (trim line) (split b'|' (trim line))

abbrev pub unwrap_or_empty : Option Text → Text
unwrap_or_empty none = []
unwrap_or_empty (some s) = s

-- What `encode` puts after the first five fields.
unfoldable pub last_fields : Bool → Text → List Text
last_fields true cert = cert ∷ codes "true" ∷ []
last_fields false [] = []
last_fields false (c ∷ s) = (c ∷ s) ∷ []

abbrev pub fields : ServerNegotiationLine → List Text
fields self =
    to_string self.core_version
    ∷ to_string self.app_version
    ∷ self.network
    ∷ self.address
    ∷ as_str self.protocol
    ∷ last_fields self.mux_supported (unwrap_or_empty self.server_cert)

unfoldable pub encode : ServerNegotiationLine → Text
unfolding join as_str last_fields
encode self = join b'|' (fields self)

unfoldable pub validate_core_version : ServerNegotiationLine → Result PluginError (Unit {0})
validate_core_version self =
    if not (self.core_version == core_protocol_version)
    then err (core_protocol_version_mismatch core_protocol_version self.core_version)
    else ok tt

unfoldable pub contains : ℕ → List ℕ → Bool
contains n [] = false
contains n (m ∷ ms) = m == n || contains n ms

unfoldable pub negotiate_version : List ℕ → ℕ → Result PluginError ℕ
unfolding contains
negotiate_version host_versions plugin_version =
    if contains plugin_version host_versions
    then ok plugin_version
    else err (no_compatible_version host_versions plugin_version)

unfoldable pub encode_version_list : List ℕ → Text
unfolding join
encode_version_list versions = join b',' (map (λ v. to_string v) versions)

-- `filter_map` of the texts that are numbers.
unfoldable pub read_versions : List Text → List ℕ
read_versions [] = []
read_versions (v ∷ vs) =
    let rest = read_versions vs in elim (parse_u32 (trim v)) [ ok n ↦ n ∷ rest | err e ↦ rest ]

unfoldable pub parse_version_list : Text → List ℕ
unfolding read_versions split
parse_version_list s = read_versions (split b',' s)
