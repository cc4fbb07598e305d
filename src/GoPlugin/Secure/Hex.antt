-- ===== src/GoPlugin/Secure/Hex.antt =====
-- crates/go-plugin/src/secure.rs: `from_hex`, `checksum_hex` and its module `hex`. A text is its bytes in
-- UTF-8. A slice that cuts a character, or ends behind the text, panics: the answer is `none`. A
-- `PluginError::Other` is what its text is made of.
pub mod RoundTrip
mod Tests
use kalidokit_rust.Base.{
  ℕ, ◌+◌, ◌-◌, ◌*◌, ◌/◌, ◌%◌, Bool, true, false, not, ◌&&◌, Option, none, some, List, [], ◌∷◌, leb,
  ltb, ◌==◌, length, if◌then◌else◌,
}
use kalidokit_rust.Base.Result.{Result, ok, err}
use kalidokit_rust.GoPlugin.Secure.{Checksum, SecureConfig, from_bytes}

pub data HexError : Type 0 where
  odd_length : HexError
  invalid_hex : ℕ → HexError
  wrong_length : ℕ → HexError

-- `{:x}` of a number below 16.
abbrev pub hex_char : ℕ → ℕ
hex_char d = if ltb d 10 then b'0' + d else b'a' + (d - 10)

unfoldable pub encode : List ℕ → List ℕ
encode [] = []
encode (b ∷ bytes) = hex_char (b / 16) ∷ (hex_char (b % 16) ∷ encode bytes)

-- `char::to_digit` in base 16.
abbrev pub to_digit : ℕ → Option ℕ
to_digit c =
    if leb b'0' c && leb c b'9'
    then some (c - b'0')
    else if leb b'a' c && leb c b'f'
    then some (c - b'a' + 10)
    else if leb b'A' c && leb c b'F'
    then some (c - b'A' + 10)
    else none

abbrev pub two_digits : Option ℕ → Option ℕ → Option ℕ
two_digits none y = none
two_digits (some x) none = none
two_digits (some x) (some y) = some (16 * x + y)

-- `u8::from_str_radix` of two bytes; a sign in front may be a plus.
abbrev pub from_str_radix : ℕ → ℕ → Option ℕ
from_str_radix a b = if a == b'+' then to_digit b else two_digits (to_digit a) (to_digit b)

-- Whether a slice that ends before this suffix cuts a character.
abbrev pub cuts : List ℕ → Bool
cuts [] = false
cuts (c ∷ s) = leb 128 c && leb c 191

abbrev pub push_byte :
    ℕ → Option ℕ → Option (Result HexError (List ℕ)) → Option (Result HexError (List ℕ))
push_byte i none rest = some (err (invalid_hex i))
push_byte i (some b) none = none
push_byte i (some b) (some (err e)) = some (err e)
push_byte i (some b) (some (ok bytes)) = some (ok (b ∷ bytes))

unfoldable pub decode_pairs : ℕ → List ℕ → Option (Result HexError (List ℕ))
decode_pairs i [] = some (ok [])
decode_pairs i (a ∷ []) = none
decode_pairs i (a ∷ (b ∷ s)) =
    let rest = decode_pairs (i + 2) s in
    if cuts s then none else push_byte i (from_str_radix a b) rest

unfoldable pub decode : List ℕ → Option (Result HexError (List ℕ))
unfolding decode_pairs
decode s = if not (length s % 2 == 0) then some (err odd_length) else decode_pairs 0 s

abbrev pub sized : Option (Result HexError (List ℕ)) → Option (Result HexError SecureConfig)
sized none = none
sized (some (err e)) = some (err e)
sized (some (ok bytes)) =
    some (
      if not (length bytes == 32) then err (wrong_length (length bytes)) else ok (from_bytes bytes))

unfoldable pub from_hex : List ℕ → Option (Result HexError SecureConfig)
unfolding decode
from_hex hex = sized (decode hex)

unfoldable pub checksum_hex : Checksum → List ℕ
unfolding encode
checksum_hex checksum = encode checksum
