-- ===== src/Video/Dpb/Lifetime.antt =====
-- A picture in `DpbManager` (crates/video-decoder/src/util/ring_buffer.rs) from `allocate` to `release`.
use kalidokit_rust.Base.{Bool, false, ◌&&◌}
use kalidokit_rust.Base.Int.{ℤ, eqb_ℤ}
use kalidokit_rust.Video.Dpb.{DpbSlot}

module _ {T : Type 0} where
  -- A slot of that count, and one that is in use as well.
  abbrev pub has : ℤ → DpbSlot T → Bool
  has poc s = eqb_ℤ s.poc poc

  abbrev pub refers : ℤ → DpbSlot T → Bool
  refers poc s = eqb_ℤ s.poc poc && s.in_use

  -- A slot as it is after its picture was released.
  abbrev pub freed : DpbSlot T → ℤ → DpbSlot T
  freed s poc = record s { poc = poc; in_use = false }
