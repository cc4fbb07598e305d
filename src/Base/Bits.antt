-- ===== src/Base/Bits.antt =====
-- `|` and `^` of the machine's unsigned integers, as numbers of so many bits.
use native.Mathlib.Nat.{pow-suc}
use Prim.Native.Nat.{ℕ, zero, suc, ◌+◌, ◌*◌, ◌/◌, ◌%◌, ◌^◌, ◌<◌, min}
use mathlib.Core.Path.{◌≡◌, refl}
use native.Mathlib.Omega.{arith}

unfoldable pub bit_or : ℕ → ℕ → ℕ → ℕ
bit_or zero a b = 0
bit_or (suc bits) a b = min 1 (a % 2 + b % 2) + 2 * bit_or bits (a / 2) (b / 2)

unfoldable pub bit_xor : ℕ → ℕ → ℕ → ℕ
bit_xor zero a b = 0
bit_xor (suc bits) a b = (a % 2 + b % 2) % 2 + 2 * bit_xor bits (a / 2) (b / 2)

pub bit_or-zero :
    (bits a b : ℕ) → a < 2 ^ bits → b < 2 ^ bits → bit_or bits a b ≡ 0 → (a ≡ 0) × (b ≡ 0)
unfolding bit_or
bit_or-zero zero a b p q h = (omega arith, omega arith)
bit_or-zero (suc bits) a b p q h =
    let (x, y) =
      bit_or-zero bits (a / 2) (b / 2) (omega (arith, pow-suc 2 bits))
        (omega (arith, pow-suc 2 bits)) (omega arith) in
    (omega (arith, x), omega (arith, y))

pub bit_or-bound : (bits a b : ℕ) → bit_or bits a b < 2 ^ bits
unfolding bit_or
bit_or-bound zero a b = omega arith
bit_or-bound (suc bits) a b = omega (arith, pow-suc 2 bits, bit_or-bound bits (a / 2) (b / 2))

pub bit_xor-bound : (bits a b : ℕ) → bit_xor bits a b < 2 ^ bits
unfolding bit_xor
bit_xor-bound zero a b = omega arith
bit_xor-bound (suc bits) a b = omega (arith, pow-suc 2 bits, bit_xor-bound bits (a / 2) (b / 2))

pub bit_xor-zero : (bits a b : ℕ) → a < 2 ^ bits → b < 2 ^ bits → bit_xor bits a b ≡ 0 → a ≡ b
unfolding bit_xor
bit_xor-zero zero a b p q h = omega arith
bit_xor-zero (suc bits) a b p q h =
    let e =
      bit_xor-zero bits (a / 2) (b / 2) (omega (arith, pow-suc 2 bits))
        (omega (arith, pow-suc 2 bits)) (omega arith) in
    omega (arith, e)

pub bit_xor_self : (bits a : ℕ) → bit_xor bits a a ≡ 0
unfolding bit_xor
bit_xor_self zero a = refl
bit_xor_self (suc bits) a = omega (arith, bit_xor_self bits (a / 2))

pub bit_or-nothing : (bits : ℕ) → bit_or bits 0 0 ≡ 0
unfolding bit_or
bit_or-nothing zero = refl
bit_or-nothing (suc bits) = omega (arith, bit_or-nothing bits)
