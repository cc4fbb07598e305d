-- ===== src/GoPlugin/Secure/Hex/Tests.antt =====
-- Hexadecimal text, good and bad.
use kalidokit_rust.Base.{ℕ, ◌≡◌, refl, none, some, List, [], ◌∷◌, arith}
use kalidokit_rust.Base.Result.{ok, err}
use kalidokit_rust.GoPlugin.Secure.{from_bytes}
use kalidokit_rust.GoPlugin.Secure.Hex.{
  invalid_hex, odd_length, wrong_length, decode_pairs, decode, from_hex, checksum_hex,
}
use kalidokit_rust.GoPlugin.Secure.Hex.RoundTrip.{from_hex-checksum_hex}

both_cases : decode (b'a' ∷ b'F' ∷ b'0' ∷ b'9' ∷ []) ≡ some (ok (175 ∷ 9 ∷ []))
unfolding decode decode_pairs
both_cases = refl

plus_sign : decode (b'+' ∷ b'f' ∷ []) ≡ some (ok (15 ∷ []))
unfolding decode decode_pairs
plus_sign = refl

bad_pair : decode (b'0' ∷ b'0' ∷ b'g' ∷ b'0' ∷ []) ≡ some (err (invalid_hex 2))
unfolding decode decode_pairs
bad_pair = refl

odd : decode (b'0' ∷ []) ≡ some (err odd_length)
unfolding decode
odd = refl

-- The two bytes of a letter with an accent, between two others.
cut_character : decode (b'a' ∷ 0xc3 ∷ 0xa9 ∷ b'b' ∷ []) ≡ none
unfolding decode decode_pairs
cut_character = refl

too_short : from_hex (b'0' ∷ b'1' ∷ []) ≡ some (err (wrong_length 1))
unfolding from_hex decode decode_pairs
too_short = refl

abbrev four : List ℕ → List ℕ
four l = 0 ∷ 255 ∷ 16 ∷ 171 ∷ l

abbrev sixteen : List ℕ → List ℕ
sixteen l = four (four (four (four l)))

from_hex-checksum_hex_example :
    from_hex (checksum_hex (sixteen (sixteen []))) ≡ some (ok (from_bytes (sixteen (sixteen []))))
from_hex-checksum_hex_example = from_hex-checksum_hex (sixteen (sixteen [])) refl (ground arith)
