-- ===== src/GoPlugin/Secure/Checksum.antt =====
-- What `constant_time_eq` and `SecureConfig::check` (crates/go-plugin/src/secure.rs) accept.
use kalidokit_rust.Base.{
  ℕ, ◌<◌, ◌≡◌, ◌≢◌, refl, sym, ◌↔◌, inl, inr, true, List, [], ◌∷◌, String, length, ◌==◌, ==→eq,
  ==-refl, All, Bool-cases, arith,
}
use kalidokit_rust.Base.Result.{Result, ok, err, err-ne_ok}
use kalidokit_rust.GoPlugin.Secure.{
  Checksum, SecureConfig, diff_loop, constant_time_eq, check, checksum_mismatch,
}
use kalidokit_rust.Base.Bits.{
  bit_or, bit_xor, bit_or-zero, bit_or-bound, bit_xor-bound, bit_xor-zero, bit_xor_self,
  bit_or-nothing,
}

-- Bytes.
abbrev pub AreBytes : List ℕ → Type 0
AreBytes xs = All (λ x. x < 256) xs

diff_loop-zero :
    (a b : List ℕ) (diff : ℕ)
    → length a ≡ length b
    → diff < 256
    → AreBytes a
    → AreBytes b
    → diff_loop diff a b ≡ 0
    → (diff ≡ 0) × (a ≡ b)
unfolding diff_loop
diff_loop-zero [] [] diff n d p q h = (h, refl)
diff_loop-zero [] (y ∷ b) diff n d p q h = absurd (omega (arith, n))
diff_loop-zero (x ∷ a) [] diff n d p q h = absurd (omega (arith, n))
diff_loop-zero (x ∷ a) (y ∷ b) diff n d p q h =
    let (none_now, rest) =
      diff_loop-zero a b (bit_or 8 diff (bit_xor 8 x y)) (omega (arith, n))
        (bit_or-bound 8 diff (bit_xor 8 x y)) p.1 q.1 h in
    let (before, here) = bit_or-zero 8 diff (bit_xor 8 x y) d (bit_xor-bound 8 x y) none_now in
    (before, cc (bit_xor-zero 8 x y p.0 q.0 here, rest))

diff_loop-same : (a : List ℕ) → diff_loop 0 a a ≡ 0
unfolding diff_loop
diff_loop-same [] = refl
diff_loop-same (x ∷ a) = rw (bit_xor_self 8 x, bit_or-nothing 8) (diff_loop-same a)

-- Of bytes, the comparison says true exactly when the two are the same, in length and in every place.
pub constant_time_eq_iff :
    (a b : List ℕ) → AreBytes a → AreBytes b → (constant_time_eq a b ≡ true) ↔ (a ≡ b)
unfolding constant_time_eq
constant_time_eq_iff a b p q = (same, λ e. rw (← e) (accepted a))
  where
    same : constant_time_eq a b ≡ true → a ≡ b
    same h = elim (Bool-cases (length a == length b)) [
      | inl n ↦
          (diff_loop-zero a b 0 (==→eq (length a) (length b) n) (omega arith) p q
            (==→eq (diff_loop 0 a b) 0 (rw n at h))).1
      | inr n ↦ let off = rw n at h in cc
    ]

    accepted : (c : List ℕ) → constant_time_eq c c ≡ true
    accepted c = rw (==-refl (length c)) (rw (diff_loop-same c) refl)

-- The check of a file that can be read passes exactly when the digest of its contents is the checksum;
-- otherwise it is a mismatch. Digest and checksum are bytes.
pub check_iff :
    {FilePath : Type 0} (read : FilePath → Result String (List ℕ)) (sha256 : List ℕ → Checksum)
    (self : SecureConfig) (path : FilePath) (contents : List ℕ)
    → read path ≡ ok contents
    → AreBytes (sha256 contents)
    → AreBytes self.checksum
    → ((check read sha256 self path ≡ ok tt) ↔ (sha256 contents ≡ self.checksum))
      × ((check read sha256 self path ≡ err checksum_mismatch) ↔ (sha256 contents ≢ self.checksum))
unfolding check
check_iff read sha256 self path contents h p q =
    let (sound, complete) = constant_time_eq_iff (sha256 contents) self.checksum p q in
    elim (Bool-cases (constant_time_eq (sha256 contents) self.checksum)) [
      | inl on ↦
          rw (h, check)
            (rw on (
              (λ _. sound on, λ _. refl),
              (λ e. absurd (err-ne_ok (sym e)), λ differ. absurd (differ (sound on))),
            ))
      | inr off ↦
          rw (h, check)
            (rw off (
              (λ e. absurd (err-ne_ok e), λ same. let on = complete same in cc),
              (λ _. λ same. let on = complete same in cc, λ _. refl),
            ))
    ]
