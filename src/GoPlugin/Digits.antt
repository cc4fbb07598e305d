-- ===== src/GoPlugin/Digits.antt =====
-- `u32` as text: `to_string`, and `str::parse::<u32>` with its errors.
use kalidokit_rust.Base.{
  ℕ, zero, suc, ◌+◌, ◌-◌, ◌*◌, ◌/◌, ◌%◌, ◌^◌, ◌<◌, ◌≡◌, ◌≢◌, refl, ap, ◌∙◌, Bool, true, false, ◌&&◌,
  [], ◌∷◌, ◌++◌, arith, leb, ltb, lt→ltb, if◌then◌else◌, ◌==◌, inl, inr, Bool-cases, ltb→lt, All,
  All-append,
}
use native.Mathlib.Nat.{pow-suc}
use kalidokit_rust.Base.Text.{Text}
use kalidokit_rust.Base.Result.{Result, ok, err, ok-injective, err-ne_ok}

-- `ParseIntError`.
pub data IntError : Type 0 where
  empty invalid_digit pos_overflow : IntError

abbrev pub is_digit : ℕ → Bool
is_digit c = leb b'0' c && leb c b'9'

unfoldable pub parse_digits : ℕ → Text → Result IntError ℕ
parse_digits acc [] = ok acc
parse_digits acc (c ∷ s) =
    let v = acc * 10 + (c - b'0') in
    let rest = parse_digits v s in
    if is_digit c then if ltb v (2 ^ 32) then rest else err pos_overflow else err invalid_digit

-- A sign in front may be a plus.
unfoldable pub parse_u32 : Text → Result IntError ℕ
unfolding parse_digits
parse_u32 [] = err empty
parse_u32 (c ∷ []) = parse_digits 0 (c ∷ [])
parse_u32 (c ∷ d ∷ s) = if c == b'+' then parse_digits 0 (d ∷ s) else parse_digits 0 (c ∷ d ∷ s)

-- The digits of a number below 10 ^ fuel.
unfoldable pub show : ℕ → ℕ → Text
show zero n = []
show (suc fuel) n =
    let rest = show fuel (n / 10) in
    if ltb n 10 then (b'0' + n) ∷ [] else rest ++ (b'0' + n % 10) ∷ []

-- Ten digits are enough for 2 ^ 32.
abbrev pub to_string : ℕ → Text
to_string n = show 10 n

is_digit-digit : (d : ℕ) → d < 10 → is_digit (b'0' + d) ≡ true
is_digit-digit d h = ground arith

parse_digit :
    (acc d : ℕ)
    → d < 10
    → acc * 10 + d < 2 ^ 32
    → parse_digits acc ((b'0' + d) ∷ []) ≡ ok (acc * 10 + d)
unfolding parse_digits
parse_digit acc d p q =
    let e : acc * 10 + (b'0' + d - b'0') ≡ acc * 10 + d = omega arith in
    rw (is_digit-digit d p) (rw e (rw (lt→ltb (acc * 10 + d) (2 ^ 32) q) refl))

parse_digits-snoc :
    (acc v d : ℕ) (s : Text)
    → parse_digits acc s ≡ ok v
    → d < 10
    → v * 10 + d < 2 ^ 32
    → parse_digits acc (s ++ (b'0' + d) ∷ []) ≡ ok (v * 10 + d)
unfolding parse_digits
parse_digits-snoc acc v d [] h p q =
    let same : acc ≡ v = ok-injective h in rw (← same) (parse_digit acc d p (rw same q))
parse_digits-snoc acc v d (c ∷ s) h p q = elim (Bool-cases (is_digit c)) [
  | inl on ↦ rw on (elim (Bool-cases (ltb (acc * 10 + (c - b'0')) (2 ^ 32))) [
    | inl fits ↦ rw fits (parse_digits-snoc (acc * 10 + (c - b'0')) v d s (rw (on, fits) at h) p q)
    | inr over ↦ absurd (err-ne_ok (rw (on, over) at h))
  ])
  | inr off ↦ absurd (err-ne_ok (rw off at h))
]

parse_digits-show : (fuel n : ℕ) → n < 10 ^ fuel → n < 2 ^ 32 → parse_digits 0 (show fuel n) ≡ ok n
unfolding show parse_digits
parse_digits-show zero n h p = ap ok (omega arith)
parse_digits-show (suc fuel) n h p = elim (Bool-cases (ltb n 10)) [
  | inl small ↦ rw small (parse_digit 0 n (ltb→lt n 10 small) (omega arith) ∙ ap ok (omega arith))
  | inr large ↦ rw large (
      parse_digits-snoc 0 (n / 10) (n % 10) (show fuel (n / 10))
        (parse_digits-show fuel (n / 10) (omega (arith, pow-suc 10 fuel)) (omega arith))
        (omega arith) (omega arith)
      ∙ ap ok (omega arith))
]

snoc-ne_nil : (s : Text) (c : ℕ) → s ++ c ∷ [] ≢ []
snoc-ne_nil [] c e = cc
snoc-ne_nil (d ∷ s) c e = cc

plus_is_no_digit : (c : ℕ) → is_digit c ≡ true → (c == b'+') ≡ false
plus_is_no_digit c h = ground arith

-- Digits only, and one of them first.
pub show-digits : (fuel n : ℕ) → All (λ c. is_digit c ≡ true) (show fuel n)
unfolding show
show-digits zero n = tt
show-digits (suc fuel) n = elim (Bool-cases (ltb n 10)) [
  | inl small ↦ rw small (is_digit-digit n (ltb→lt n 10 small), tt)
  | inr large ↦ rw large (
      All-append (λ c. is_digit c ≡ true) (show fuel (n / 10)) ((b'0' + n % 10) ∷ [])
        (show-digits fuel (n / 10)) (is_digit-digit (n % 10) (omega arith), tt))
]

pub show-ne_nil : (fuel n : ℕ) → show (suc fuel) n ≢ []
unfolding show
show-ne_nil fuel n = elim (Bool-cases (ltb n 10)) [
  | inl small ↦ rw small (λ e. cc)
  | inr large ↦ rw large (snoc-ne_nil (show fuel (n / 10)) (b'0' + n % 10))
]

parse_u32-digits :
    (s : Text) → s ≢ [] → All (λ c. is_digit c ≡ true) s → parse_u32 s ≡ parse_digits 0 s
unfolding parse_u32
parse_u32-digits [] h a = absurd (h refl)
parse_u32-digits (c ∷ []) h a = refl
parse_u32-digits (c ∷ d ∷ s) h a = rw (plus_is_no_digit c a.0) refl

-- A number that a u32 holds is read back from its text.
pub parse_u32-to_string : (n : ℕ) → n < 2 ^ 32 → parse_u32 (to_string n) ≡ ok n
parse_u32-to_string n h =
    parse_u32-digits (to_string n) (show-ne_nil 9 n) (show-digits 10 n)
    ∙ parse_digits-show 10 n (omega arith) h
