-- ===== src/Video/Dpb/Allocation.antt =====
-- Which slot `DpbManager::allocate` (crates/video-decoder/src/util/ring_buffer.rs) takes.
use mathlib.Core.Option.{some-injective}
use kalidokit_rust.Base.{
  ℕ, zero, suc, ◌+◌, ◌≡◌, refl, ap, ◌∙◌, ◌⊎◌, inl, inr, Bool, not, none, some, List, [], ◌∷◌, arith,
  Bool-cases, get_elem?, FirstAt, Nowhere, FirstAt-suc, Nowhere-cons,
}
use kalidokit_rust.Base.Int.{ℤ, ltb_ℤ, ◌≤ℤ◌}
use kalidokit_rust.Video.Dpb.{DpbSlot, DpbManager, position, min_loop, min_by_poc, occupy, allocate}

module _ {A : Type 0} (p : A → Bool) where
  pub position-cases :
      (xs : List A)
      → ((i : ℕ) × (position p xs ≡ some i) × FirstAt p xs i)
        ⊎ ((position p xs ≡ none) × Nowhere p xs)
  unfolding position
  position-cases [] = inr (refl, λ j y e. cc)
  position-cases (x ∷ xs) = elim (Bool-cases (p x)) [
    | inl on ↦ inl (0, rw on refl, (x, refl, on, λ j y lt e. absurd (omega (arith, lt))))
    | inr off ↦ elim (position-cases xs) [
      | inl (i, e, first) ↦ inl (suc i, rw (off, e) refl, FirstAt-suc p x xs i off first)
      | inr (e, nowhere) ↦ inr (rw (off, e) refl, Nowhere-cons p x xs off nowhere)
    ]
  ]

module _ {T : Type 0} where
  -- No slot has a smaller count.
  abbrev pub Least : List (DpbSlot T) → ℤ → Type 0
  Least xs poc = (j : ℕ) (y : DpbSlot T) → get_elem? xs j ≡ some y → poc ≤ℤ y.poc

  Least-cons :
      (s : DpbSlot T) (rest : List (DpbSlot T)) (poc : ℤ)
      → poc ≤ℤ s.poc
      → Least rest poc
      → Least (s ∷ rest) poc
  Least-cons s rest poc h l zero y e = rw (← some-injective _ _ e) h
  Least-cons s rest poc h l (suc j) y e = l j y e

  -- The loop ends at the best so far or at a slot of the rest, whose count is not above it.
  min_loop-Least :
      (i best : ℕ) (best_poc : ℤ) (rest : List (DpbSlot T))
      → ((min_loop i best best_poc rest ≡ best) × Least rest best_poc)
        ⊎ ((k : ℕ) × (s : DpbSlot T) × (min_loop i best best_poc rest ≡ i + k)
            × (get_elem? rest k ≡ some s)
            × (s.poc ≤ℤ best_poc)
            × Least rest s.poc)
  unfolding min_loop
  min_loop-Least i best best_poc [] = inl (refl, λ j y e. cc)
  min_loop-Least i best best_poc (s ∷ rest) = elim (Bool-cases (ltb_ℤ s.poc best_poc)) [
    | inl less ↦ rw less (elim (min_loop-Least (suc i) i s.poc rest) [
      | inl (e, l) ↦
          inr
            (0, s, rw e (omega arith), refl, ground arith, Least-cons s rest s.poc (omega arith) l)
      | inr (k, t, e, at, le, l) ↦
          inr (suc k, t, rw e (omega arith), at, ground arith, Least-cons s rest t.poc le l)
    ])
    | inr not_less ↦ rw not_less (elim (min_loop-Least (suc i) best best_poc rest) [
      | inl (e, l) ↦ inl (e, Least-cons s rest best_poc (ground arith) l)
      | inr (k, t, e, at, le, l) ↦
          inr (suc k, t, rw e (omega arith), at, le, Least-cons s rest t.poc (ground arith) l)
    ])
  ]

  min_by_poc-Least :
      (s : DpbSlot T) (rest : List (DpbSlot T))
      → (k : ℕ) × (t : DpbSlot T) × (min_by_poc (s ∷ rest) ≡ some k)
        × (get_elem? (s ∷ rest) k ≡ some t)
        × Least (s ∷ rest) t.poc
  unfolding min_by_poc
  min_by_poc-Least s rest = elim (min_loop-Least 1 0 s.poc rest) [
    | inl (e, l) ↦ (0, s, ap some e, refl, Least-cons s rest s.poc (omega arith) l)
    | inr (k, t, e, at, le, l) ↦
        (suc k, t, ap some (e ∙ omega arith), at, Least-cons s rest t.poc le l)
  ]

  slots_cases :
      (slots : List (DpbSlot T))
      → ((slots ≡ []) × (min_by_poc slots ≡ none))
        ⊎ ((k : ℕ) × (t : DpbSlot T) × (min_by_poc slots ≡ some k)
            × (get_elem? slots k ≡ some t)
            × Least slots t.poc)
  unfolding min_by_poc
  slots_cases [] = inl (refl, refl)
  slots_cases (s ∷ rest) = inr (min_by_poc-Least s rest)

  -- The slot that is taken, as `allocate` writes it.
  pub allocate-cases :
      (self : DpbManager T) (poc : ℤ)
      → ((self.slots ≡ []) × (allocate self poc ≡ (self, none)))
        ⊎ ((i : ℕ) × (old : DpbSlot T) × (get_elem? self.slots i ≡ some old)
            × (allocate self poc ≡ (record { slots = occupy self.slots i poc }, some i))
            × (FirstAt (λ s. not s.in_use) self.slots i
                ⊎ (Nowhere (λ s. not s.in_use) self.slots × Least self.slots old.poc)))
  unfolding allocate
  allocate-cases self poc = elim (position-cases (λ s. not s.in_use) self.slots) [
    | inl (i, e, (s, at, free, before)) ↦
        inr (i, s, at, rw (e, allocate) refl, inl (s, at, free, before))
    | inr (e, full) ↦ elim (slots_cases self.slots) [
      | inl (empty, nothing) ↦ inl (empty, rw (e, allocate) (rw nothing refl))
      | inr (k, t, m, at, least) ↦ inr (k, t, at, rw (e, allocate) (rw m refl), inr (full, least))
    ]
  ]
