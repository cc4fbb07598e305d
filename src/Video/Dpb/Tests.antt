-- ===== src/Video/Dpb/Tests.antt =====
-- A manager of two slots.
use kalidokit_rust.Base.{ℕ, ◌≡◌, refl, true, false, some, [], ◌∷◌, ◌+◌}
use kalidokit_rust.Base.Int.{pos, negsuc}
use kalidokit_rust.Video.Dpb.{
  DpbManager, position, new, min_loop, min_by_poc, occupy, allocate, slot, reset, len, is_empty,
}
use kalidokit_rust.Video.Dpb.Lifetime.{freed}

abbrev empty : DpbManager ℕ
empty = record {
  slots =
      record { resource = 7; poc = negsuc 0; in_use = false }
      ∷ record { resource = 8; poc = negsuc 0; in_use = false }
      ∷ [];
}

new_slots : new 2 (λ i. 7 + i) ≡ empty
unfolding new
new_slots = refl

abbrev full : DpbManager ℕ
full = record {
  slots =
      record { resource = 7; poc = pos 5; in_use = true }
      ∷ record { resource = 8; poc = pos 3; in_use = true }
      ∷ [];
}

filled : (allocate (allocate empty (pos 5)).0 (pos 3)).0 ≡ full
unfolding allocate position min_by_poc min_loop occupy
filled = refl

evicted : (allocate full (pos 9)).1 ≡ some 1
unfolding allocate position min_by_poc min_loop occupy
evicted = refl

cleared :
    (slot (reset full) 1
      ≡ some (freed (record { resource = 8; poc = pos 3; in_use = true }) (negsuc 0)))
    × (len (reset full) ≡ 2)
    × (is_empty (reset full) ≡ false)
unfolding reset slot len is_empty
cleared = (refl, refl, refl)
