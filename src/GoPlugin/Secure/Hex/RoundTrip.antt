-- ===== src/GoPlugin/Secure/Hex/RoundTrip.antt =====
-- A checksum as text and back (crates/go-plugin/src/secure.rs).
use kalidokit_rust.Base.{
  ℕ, ◌+◌, ◌*◌, ◌/◌, ◌%◌, ◌<◌, ◌≡◌, refl, ap, false, ◌&&◌, some, List, [], ◌∷◌, leb, ◌==◌, length,
  All, arith,
}
use kalidokit_rust.Base.Result.{ok}
use kalidokit_rust.GoPlugin.Secure.{Checksum, from_bytes}
use kalidokit_rust.GoPlugin.Secure.Hex.{
  hex_char, encode, to_digit, from_str_radix, cuts, decode_pairs, decode, from_hex, checksum_hex,
}

to_digit-hex_char : (d : ℕ) → d < 16 → to_digit (hex_char d) ≡ some d
to_digit-hex_char d h = grind arith

hex_char-ne_plus : (d : ℕ) → d < 16 → (hex_char d == b'+') ≡ false
hex_char-ne_plus d h = grind arith

hex_char-whole : (d : ℕ) → d < 16 → (leb 128 (hex_char d) && leb (hex_char d) 191) ≡ false
hex_char-whole d h = grind arith

from_str_radix-hex_char :
    (b : ℕ) → b < 256 → from_str_radix (hex_char (b / 16)) (hex_char (b % 16)) ≡ some b
from_str_radix-hex_char b h =
    rw
      (
        hex_char-ne_plus (b / 16) (omega (arith, h)),
        to_digit-hex_char (b / 16) (omega (arith, h)),
        to_digit-hex_char (b % 16) (omega arith),
      )
      (ap some (omega arith))

cuts-encode : (bytes : List ℕ) → All (λ b. b < 256) bytes → cuts (encode bytes) ≡ false
unfolding encode
cuts-encode [] h = refl
cuts-encode (b ∷ bytes) (p, h) = hex_char-whole (b / 16) (omega (arith, p))

decode_pairs-encode :
    (i : ℕ) (bytes : List ℕ)
    → All (λ b. b < 256) bytes
    → decode_pairs i (encode bytes) ≡ some (ok bytes)
unfolding encode decode_pairs
decode_pairs-encode i [] h = refl
decode_pairs-encode i (b ∷ bytes) (p, h) =
    rw (cuts-encode bytes h, from_str_radix-hex_char b p, decode_pairs-encode (i + 2) bytes h) refl

length-encode : (bytes : List ℕ) → length (encode bytes) ≡ 2 * length bytes
unfolding encode
length-encode [] = refl
length-encode (b ∷ bytes) = omega (arith, length-encode bytes)

decode-encode :
    (bytes : List ℕ) → All (λ b. b < 256) bytes → decode (encode bytes) ≡ some (ok bytes)
unfolding decode
decode-encode bytes h =
    let even : length (encode bytes) % 2 ≡ 0 = omega (arith, length-encode bytes) in
    rw even (decode_pairs-encode 0 bytes h)

-- A checksum of 32 bytes, as hexadecimal text, is read back as the configuration of that checksum.
pub from_hex-checksum_hex :
    (checksum : Checksum)
    → length checksum ≡ 32
    → All (λ b. b < 256) checksum
    → from_hex (checksum_hex checksum) ≡ some (ok (from_bytes checksum))
unfolding from_hex checksum_hex
from_hex-checksum_hex checksum l h = rw (decode-encode checksum h) (rw l refl)
