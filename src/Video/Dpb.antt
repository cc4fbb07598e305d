-- ===== src/Video/Dpb.antt =====
-- crates/video-decoder/src/util/ring_buffer.rs: the slots of decoded pictures, `DpbManager`. A slot's
-- resource is of any type; a picture order count is an i32.
pub mod Allocation
pub mod Lifetime
mod Tests
use kalidokit_rust.Base.{
  ℕ, zero, suc, ◌+◌, Bool, true, false, not, ◌&&◌, Option, none, some, List, [], ◌∷◌, map,
  if◌then◌else◌, length, get_elem?, ◌==◌,
}
use kalidokit_rust.Base.Int.{ℤ, pos, negsuc, eqb_ℤ, ltb_ℤ}

pub record DpbSlot (T : Type 0) : Type 0 where
  pub resource : T
  pub poc : ℤ
  pub in_use : Bool

pub record DpbManager (T : Type 0) : Type 0 where
  pub slots : List (DpbSlot T)

abbrev pub shifted : Option ℕ → Option ℕ
shifted none = none
shifted (some i) = some (suc i)

-- `Iterator::position`.
unfoldable pub position : {A : Type 0} → (A → Bool) → List A → Option ℕ
position p [] = none
position p (x ∷ xs) = if p x then some 0 else shifted (position p xs)

unfoldable pub filter_map : {A B : Type 0} → (A → Option B) → List A → List B
filter_map f [] = []
filter_map f (x ∷ xs) = elim (f x) [ none ↦ filter_map f xs | some y ↦ y ∷ filter_map f xs ]

module _ {T : Type 0} where
  abbrev init_from : (ℕ → T) → ℕ → ℕ → List (DpbSlot T)
  init_from init i zero = []
  init_from init i (suc n) =
      record { resource = init i; poc = negsuc 0; in_use = false } ∷ init_from init (suc i) n

  unfoldable pub new : ℕ → (ℕ → T) → DpbManager T
  new max_slots init = record { slots = init_from init 0 max_slots }

  -- The rest of `min_by_key`, with the first slot of the least count so far.
  unfoldable pub min_loop : ℕ → ℕ → ℤ → List (DpbSlot T) → ℕ
  min_loop i best best_poc [] = best
  min_loop i best best_poc (s ∷ rest) =
      let less = ltb_ℤ s.poc best_poc in
      min_loop (suc i) (if less then i else best) (if less then s.poc else best_poc) rest

  unfoldable pub min_by_poc : List (DpbSlot T) → Option ℕ
  min_by_poc [] = none
  min_by_poc (s ∷ rest) = some (min_loop 1 0 s.poc rest)

  unfoldable pub occupy : List (DpbSlot T) → ℕ → ℤ → List (DpbSlot T)
  occupy [] idx poc = []
  occupy (s ∷ rest) zero poc = record s { poc = poc; in_use = true } ∷ rest
  occupy (s ∷ rest) (suc idx) poc = s ∷ occupy rest idx poc

  unfoldable pub allocate : DpbManager T → ℤ → DpbManager T × Option ℕ
  unfolding min_by_poc occupy position
  allocate self poc = elim (position (λ s. not s.in_use) self.slots) [
    | some idx ↦ (record { slots = occupy self.slots idx poc }, some idx)
    | none ↦ elim (min_by_poc self.slots) [
      | some idx ↦ (record { slots = occupy self.slots idx poc }, some idx)
      | none ↦ (self, none)
    ]
  ]

  -- The first slot of that count, whether or not it is in use.
  unfoldable pub release_loop : ℤ → List (DpbSlot T) → List (DpbSlot T)
  release_loop poc [] = []
  release_loop poc (s ∷ rest) =
      if eqb_ℤ s.poc poc then record s { in_use = false } ∷ rest else s ∷ release_loop poc rest

  unfoldable pub release : DpbManager T → ℤ → DpbManager T
  unfolding release_loop
  release self poc = record { slots = release_loop poc self.slots }

  unfoldable pub get_reference_indices : DpbManager T → List ℤ → List ℕ
  unfolding filter_map position
  get_reference_indices self ref_pocs =
      filter_map (λ poc. position (λ s. eqb_ℤ s.poc poc && s.in_use) self.slots) ref_pocs

  unfoldable pub slot : DpbManager T → ℕ → Option (DpbSlot T)
  slot self index = get_elem? self.slots index

  unfoldable pub reset : DpbManager T → DpbManager T
  reset self = record {
    slots =
        map {A = DpbSlot T} {B = DpbSlot T} (λ s. record s { in_use = false; poc = negsuc 0 })
          self.slots;
  }

  unfoldable pub len : DpbManager T → ℕ
  len self = length self.slots

  unfoldable pub is_empty : DpbManager T → Bool
  is_empty self = length self.slots == 0
