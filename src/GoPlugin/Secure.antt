-- ===== src/GoPlugin/Secure.antt =====
-- crates/go-plugin/src/secure.rs: the check of a plugin's checksum. A byte is a number below 256, and
-- `|` and `^` are those of Base.Bits on eight bits. Reading the file and SHA-256 are
-- arguments. Hex has the hexadecimal form.
pub mod Checksum
pub mod Hex
mod Tests
use kalidokit_rust.Base.{
  ℕ, zero, suc, ◌+◌, ◌*◌, ◌/◌, ◌%◌, min, Bool, true, false, not, List, [], ◌∷◌, String, length,
  ◌==◌, if◌then◌else◌,
}
use kalidokit_rust.Base.Bits.{bit_or, bit_xor}
use kalidokit_rust.Base.Result.{Result, ok, err}

abbrev pub Checksum : Type 0
Checksum = List ℕ

pub data SecureError : Type 0 where
  subprocess : String → SecureError
  checksum_mismatch : SecureError

pub record SecureConfig : Type 0 where
  pub checksum : Checksum

unfoldable pub diff_loop : ℕ → List ℕ → List ℕ → ℕ
diff_loop diff [] b = diff
diff_loop diff (x ∷ a) [] = diff
diff_loop diff (x ∷ a) (y ∷ b) = diff_loop (bit_or 8 diff (bit_xor 8 x y)) a b

unfoldable pub constant_time_eq : List ℕ → List ℕ → Bool
unfolding diff_loop
constant_time_eq a b = if not (length a == length b) then false else diff_loop 0 a b == 0

unfoldable pub from_bytes : Checksum → SecureConfig
from_bytes checksum = record { checksum = checksum }

module _ {FilePath : Type 0} (read : FilePath → Result String (List ℕ))
    (sha256 : List ℕ → Checksum) where
  unfoldable pub check : SecureConfig → FilePath → Result SecureError (Unit {0})
  unfolding constant_time_eq
  check self path = elim (read path) [
    | err e ↦ err (subprocess e)
    | ok contents ↦
        if constant_time_eq (sha256 contents) self.checksum then ok tt else err checksum_mismatch
  ]

  unfoldable pub compute_checksum : FilePath → Result SecureError Checksum
  compute_checksum path = elim (read path) [
    | err e ↦ err (subprocess e)
    | ok contents ↦ ok (sha256 contents)
  ]
