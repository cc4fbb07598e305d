-- ===== src/GoPlugin/Protocol/RoundTrip.antt =====
-- `ServerNegotiationLine::parse` after `encode` (crates/go-plugin/src/protocol.rs).
use kalidokit_rust.Base.{
  ℕ, ◌<◌, ◌^◌, ◌≡◌, ◌≢◌, refl, ap, Bool, true, false, Option, none, some, List, [], ◌∷◌, ◌++◌,
  arith, All, ◌==◌, ne→==,
}
use kalidokit_rust.Base.Text.{Text, text_eq}
use kalidokit_rust.Base.Result.{ok}
use kalidokit_rust.GoPlugin.Digits.{
  is_digit, to_string, show-digits, show-ne_nil, parse_u32-to_string,
}
use kalidokit_rust.GoPlugin.Fields.{
  IsField, Starts, Ends, is_whitespace, split-join, trim-kept, Ends-append, join, trim, split,
}
use kalidokit_rust.GoPlugin.Protocol.{
  Protocol, grpc, net_rpc, as_str, from_str, ServerNegotiationLine, cert_of, mux_of, parse_parts,
  parse, last_fields, fields, encode, unwrap_or_empty,
}

pub digit-IsField :
    (sep : ℕ) (s : Text) → is_digit sep ≡ false → All (λ c. is_digit c ≡ true) s → IsField sep s
digit-IsField sep [] off h = tt
digit-IsField sep (c ∷ s) off h = (differs c h.0, digit-IsField sep s off h.1)
  where
    differs : (d : ℕ) → is_digit d ≡ true → (d == sep) ≡ false
    differs d on = ne→== d sep (λ e. let same = ap is_digit e in cc)

pub digit_is_no_blank : (c : ℕ) → is_digit c ≡ true → is_whitespace c ≡ false
unfolding is_whitespace
digit_is_no_blank c h = ground arith

pub from_str-as_str : (p : Protocol) → from_str (as_str p) ≡ ok p
unfolding from_str as_str text_eq
from_str-as_str grpc = refl
from_str-as_str net_rpc = refl

as_str-IsField : (p : Protocol) → IsField b'|' (as_str p)
unfolding as_str
as_str-IsField grpc = (refl, (refl, (refl, (refl, tt))))
as_str-IsField net_rpc = (refl, (refl, (refl, (refl, (refl, (refl, tt))))))

as_str-Ends : (p : Protocol) → Ends (as_str p)
unfolding as_str is_whitespace
as_str-Ends grpc = refl
as_str-Ends net_rpc = refl

-- A certificate that a line can carry: it has no separator, is not empty, and does not end in a blank.
abbrev pub IsCert : Option Text → Type 0
IsCert none = Unit
IsCert (some s) = IsField b'|' s × Ends s

last-read :
    (mux : Bool) (cert : Option Text)
    → IsCert cert
    → (cert_of (last_fields mux (unwrap_or_empty cert)) ≡ cert)
      × (mux_of (last_fields mux (unwrap_or_empty cert)) ≡ mux)
unfolding cert_of mux_of last_fields text_eq
last-read true none h = (refl, refl)
last-read false none h = (refl, refl)
last-read mux (some []) h = elim h.1 [ ]
last-read true (some (c ∷ s)) h = (refl, refl)
last-read false (some (c ∷ s)) h = (refl, refl)

last-IsField :
    (mux : Bool) (cert : Option Text)
    → IsCert cert
    → All (IsField b'|') (last_fields mux (unwrap_or_empty cert))
unfolding last_fields
last-IsField true none h = (tt, ((refl, (refl, (refl, (refl, tt)))), tt))
last-IsField false none h = tt
last-IsField mux (some []) h = elim h.1 [ ]
last-IsField true (some (c ∷ s)) h = (h.0, ((refl, (refl, (refl, (refl, tt)))), tt))
last-IsField false (some (c ∷ s)) h = (h.0, tt)

abbrev LastEnds : List Text → Type 0
LastEnds [] = ⊥
LastEnds (part ∷ []) = Ends part
LastEnds (part ∷ next ∷ parts) = LastEnds (next ∷ parts)

join-Ends : (sep : ℕ) (parts : List Text) → LastEnds parts → Ends (join sep parts)
unfolding join
join-Ends sep [] h = elim h [ ]
join-Ends sep (part ∷ []) h = h
join-Ends sep (part ∷ next ∷ parts) h =
    Ends-append part (sep ∷ join sep (next ∷ parts))
      (Ends-append (sep ∷ []) (join sep (next ∷ parts)) (join-Ends sep (next ∷ parts) h))

last-LastEnds :
    (p : Protocol) (mux : Bool) (cert : Option Text)
    → IsCert cert
    → LastEnds (as_str p ∷ last_fields mux (unwrap_or_empty cert))
unfolding last_fields is_whitespace
last-LastEnds p true none h = refl
last-LastEnds p false none h = as_str-Ends p
last-LastEnds p mux (some []) h = elim h.1 [ ]
last-LastEnds p true (some (c ∷ s)) h = refl
last-LastEnds p false (some (c ∷ s)) h = h.1

digits-Starts : (s t : Text) → s ≢ [] → All (λ c. is_digit c ≡ true) s → Starts (s ++ t)
digits-Starts [] t h a = absurd (h refl)
digits-Starts (c ∷ s) t h a = digit_is_no_blank c a.0

encode-trimmed :
    (self : ServerNegotiationLine) → IsCert self.server_cert → trim (encode self) ≡ encode self
unfolding encode join
encode-trimmed self cert =
    trim-kept (encode self)
      (digits-Starts (to_string self.core_version) _ (show-ne_nil 9 self.core_version)
        (show-digits 10 self.core_version))
      (join-Ends b'|' (fields self)
        (last-LastEnds self.protocol self.mux_supported self.server_cert cert))

encode-split :
    (self : ServerNegotiationLine)
    → IsField b'|' self.network
    → IsField b'|' self.address
    → IsCert self.server_cert
    → split b'|' (encode self) ≡ fields self
unfolding encode
encode-split self network address cert =
    split-join b'|' (fields self) (λ e. cc)
      (
        digit-IsField b'|' (to_string self.core_version) refl (show-digits 10 self.core_version),
        (
          digit-IsField b'|' (to_string self.app_version) refl (show-digits 10 self.app_version),
          (
            network,
            (
              address,
              (as_str-IsField self.protocol, last-IsField self.mux_supported self.server_cert cert),
            ),
          ),
        ),
      )

-- The text of a line is read back as that line: the versions are of u32, network, address and
-- certificate have no separator, and the certificate, if there is one, is not empty and does not end in
-- a blank.
pub parse-encode :
    (self : ServerNegotiationLine)
    → self.core_version < 2 ^ 32
    → self.app_version < 2 ^ 32
    → IsField b'|' self.network
    → IsField b'|' self.address
    → IsCert self.server_cert
    → parse (encode self) ≡ ok self
unfolding parse parse_parts
parse-encode self core app network address cert = rw (encode-trimmed self cert) (
    rw (encode-split self network address cert) (
      rw
        (
          parse_u32-to_string self.core_version core,
          parse_u32-to_string self.app_version app,
          from_str-as_str self.protocol,
        )
        (ap ok (
          rw
            (
              (last-read self.mux_supported self.server_cert cert).0,
              (last-read self.mux_supported self.server_cert cert).1,
            )
            refl))))
