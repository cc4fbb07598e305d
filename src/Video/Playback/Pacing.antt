-- ===== src/Video/Playback/Pacing.antt =====
-- How many frames `PlaybackState::tick` (crates/video-decoder/src/util/timestamp.rs) asks for.
use native.Mathlib.Nat.{add-mul}
use kalidokit_rust.Base.{
  ℕ, ◌+◌, ◌*◌, ◌<◌, ◌≡◌, refl, false, List, [], ◌∷◌, arith, inl, inr, Bool-cases, leb, leb→le,
  if◌then◌else◌,
}
use kalidokit_rust.Base.Time.{Duration, saturating_add, max_duration}
use kalidokit_rust.Video.Playback.{PlaybackState, tick}

abbrev pub total : List Duration → Duration
total [] = 0
total (dt ∷ dts) = dt + total dts

module _ {Fps : Type 0} where
  -- The state after ticks, and how many of them asked for a frame.
  unfoldable pub run : PlaybackState Fps → List Duration → PlaybackState Fps × ℕ
  run self [] = (self, 0)
  run self (dt ∷ dts) =
      let (self', frame) = tick self dt in
      let (last, frames) = run self' dts in (last, (if frame then 1 else 0) + frames)

  tick-conserved :
      (self : PlaybackState Fps) (dt : Duration)
      → self.paused ≡ false
      → self.position + dt < max_duration
      → self.elapsed_since_frame + dt < max_duration
      → let t = tick self dt in
        ((if t.1 then 1 else 0) * self.frame_interval + t.0.elapsed_since_frame
          ≡ self.elapsed_since_frame + dt)
        × (t.0.position ≡ self.position + dt)
        × (t.0.frame_interval ≡ self.frame_interval)
        × (t.0.paused ≡ false)
  unfolding tick
  tick-conserved self dt on p e =
      elim (Bool-cases (leb self.frame_interval (saturating_add self.elapsed_since_frame dt))) [
        | inl due ↦ rw (on, due) (omega (arith, leb→le _ _ due), omega arith, refl, refl)
        | inr early ↦ rw (on, early) (omega arith, omega arith, refl, refl)
      ]

  -- A run of ticks that is not paused and stays below the largest duration: the position moves by all
  -- the time that passed, and the frames asked for, at one interval each, and the time since the
  -- last of them make up that time and the time since a frame at the start.
  pub run-conserved :
      (dts : List Duration) (self : PlaybackState Fps)
      → self.paused ≡ false
      → self.position + total dts < max_duration
      → self.elapsed_since_frame + total dts < max_duration
      → let r = run self dts in
        (r.1 * self.frame_interval + r.0.elapsed_since_frame ≡ self.elapsed_since_frame + total dts)
        × (r.0.position ≡ self.position + total dts)
  unfolding run
  run-conserved [] self on p e = (omega arith, omega arith)
  run-conserved (dt ∷ dts) self on p e =
      let t = tick self dt in
      let (spent, moved, kept, still) = tick-conserved self dt on (omega arith) (omega arith) in
      let (all, end) = run-conserved dts t.0 still (omega (arith, moved)) (omega (arith, spent)) in
      (
        omega (
          arith,
          add-mul (if t.1 then 1 else 0) (run t.0 dts).1 self.frame_interval,
          spent,
          rw kept at all,
        ),
        omega (arith, end, moved),
      )
