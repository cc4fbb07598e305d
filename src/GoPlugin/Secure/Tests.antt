-- ===== src/GoPlugin/Secure/Tests.antt =====
-- Checksums of two bytes.
use kalidokit_rust.Base.{ℕ, ◌≡◌, ◌≢◌, refl, ◌↔◌, false, List, [], ◌∷◌, String, arith}
use kalidokit_rust.Base.Result.{Result, ok, err}
use kalidokit_rust.GoPlugin.Secure.{
  SecureConfig, subprocess, checksum_mismatch, diff_loop, constant_time_eq, from_bytes, check,
  compute_checksum,
}
use kalidokit_rust.Base.Bits.{bit_or, bit_xor}
use kalidokit_rust.GoPlugin.Secure.Checksum.{check_iff}

one_bit_differs : constant_time_eq (5 ∷ 129 ∷ []) (5 ∷ 128 ∷ []) ≡ false
unfolding constant_time_eq diff_loop bit_or bit_xor
one_bit_differs = refl

unreadable :
    check (λ (p : ℕ). err "gone") (λ c. c) (from_bytes (1 ∷ [])) 0 ≡ err (subprocess "gone")
unfolding check from_bytes
unreadable = refl

computed : compute_checksum (λ (p : ℕ). ok (p ∷ [])) (λ c. c) 7 ≡ ok (7 ∷ [])
unfolding compute_checksum
computed = refl

abbrev config : SecureConfig
config = record { checksum = 7 ∷ [] }

abbrev read : ℕ → Result String (List ℕ)
read p = ok (p ∷ [])

abbrev sha256 : List ℕ → List ℕ
sha256 c = c

check_iff_example :
    ((check read sha256 config 8 ≡ ok tt) ↔ (Path (List ℕ) (8 ∷ []) (7 ∷ [])))
    × ((check read sha256 config 8 ≡ err checksum_mismatch) ↔ (◌≢◌ {A = List ℕ} (8 ∷ []) (7 ∷ [])))
check_iff_example = check_iff read sha256 config 8 (8 ∷ []) refl (omega arith, tt) (omega arith, tt)
