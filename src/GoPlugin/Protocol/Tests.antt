-- ===== src/GoPlugin/Protocol/Tests.antt =====
-- Lines and lists of versions.
use kalidokit_rust.Base.{◌≡◌, refl, true, none, [], ◌∷◌, arith}
use kalidokit_rust.Base.Text.{codes}
use kalidokit_rust.Base.Result.{ok, err}
use kalidokit_rust.GoPlugin.Digits.{parse_u32, parse_digits, show, pos_overflow}
use kalidokit_rust.GoPlugin.Fields.{split, join, trim, trim_start, trim_end, is_whitespace}
use kalidokit_rust.GoPlugin.Protocol.{
  net_rpc, as_str, ServerNegotiationLine, parse_parts, parse, encode, last_fields, negotiation,
  too_few_fields, invalid_core_version, HandshakeConfig, validate_magic_cookie,
  magic_cookie_mismatch, validate_core_version, core_protocol_version_mismatch, contains,
  negotiate_version,
}
use kalidokit_rust.GoPlugin.Protocol.RoundTrip.{parse-encode}

abbrev line : ServerNegotiationLine
line = record {
  core_version = 1;
  app_version = 40;
  network = codes "tcp";
  address = codes "host:80";
  protocol = net_rpc;
  server_cert = none;
  mux_supported = true;
}

encoded : encode line ≡ codes "1|40|tcp|host:80|netrpc||true"
unfolding encode join show as_str last_fields
encoded = refl

too_short : parse (codes "1|2|unix") ≡ err (negotiation (too_few_fields 3 (codes "1|2|unix")))
unfolding parse parse_parts split trim trim_start trim_end is_whitespace
too_short = refl

overflowing :
    parse (codes "4294967296|2|unix|a|grpc") ≡ err (negotiation (invalid_core_version pos_overflow))
unfolding parse parse_parts split trim trim_start trim_end is_whitespace parse_u32 parse_digits
overflowing = refl

other_core :
    validate_core_version (record line { core_version = 2 })
    ≡ err (core_protocol_version_mismatch 1 2)
unfolding validate_core_version
other_core = refl

accepted : negotiate_version (3 ∷ 5 ∷ []) 5 ≡ ok 5
unfolding negotiate_version contains
accepted = refl

abbrev handshake : HandshakeConfig
handshake = record {
  protocol_version = 1;
  magic_cookie_key = codes "KEY";
  magic_cookie_value = codes "v";
}

no_cookie :
    validate_magic_cookie (λ key. none) handshake ≡ err (magic_cookie_mismatch (codes "KEY"))
unfolding validate_magic_cookie
no_cookie = refl

parse-encode_example : parse (encode line) ≡ ok line
parse-encode_example =
    parse-encode line (omega arith) (omega arith) (refl, (refl, (refl, tt)))
      (refl, (refl, (refl, (refl, (refl, (refl, (refl, tt))))))) tt
