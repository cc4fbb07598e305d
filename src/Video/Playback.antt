-- ===== src/Video/Playback.antt =====
-- crates/video-decoder/src/util/timestamp.rs, `PlaybackState`. A frame rate, an f64, is of any type;
-- the interval 1.0 / fps as a duration, where fps > 0.0, is a parameter.
pub mod Pacing
mod Tests
use kalidokit_rust.Base.{ℕ, ◌-◌, Bool, true, false, Option, none, some, leb, if◌then◌else◌}
use kalidokit_rust.Base.Time.{Duration, from_millis, saturating_add}

pub record PlaybackState (Fps : Type 0) : Type 0 where
  pub position : Duration
  pub duration : Duration
  pub fps : Fps
  pub looping : Bool
  pub paused : Bool
  pub frame_interval : Duration
  pub elapsed_since_frame : Duration

module _ {Fps : Type 0} where
  unfoldable pub new : (Fps → Option Duration) → Duration → Fps → Bool → PlaybackState Fps
  new interval_of duration fps looping = record {
    position = 0;
    duration = duration;
    fps = fps;
    looping = looping;
    paused = false;
    frame_interval = elim (interval_of fps) [ none ↦ from_millis 33 | some d ↦ d ];
    elapsed_since_frame = 0;
  }

  unfoldable pub tick : PlaybackState Fps → Duration → PlaybackState Fps × Bool
  tick self dt =
      let elapsed = saturating_add self.elapsed_since_frame dt in
      let moved = record self {
        position = saturating_add self.position dt;
        elapsed_since_frame = elapsed;
      } in
      if self.paused
      then (self, false)
      else if leb self.frame_interval elapsed
      then (record moved { elapsed_since_frame = elapsed - self.frame_interval }, true)
      else (moved, false)

  unfoldable pub check_end_of_stream : PlaybackState Fps → PlaybackState Fps × Bool
  check_end_of_stream self =
      if leb self.duration self.position
      then if self.looping
        then (record self { position = 0; elapsed_since_frame = 0 }, true)
        else (self, false)
      else (self, true)

  unfoldable pub pause : PlaybackState Fps → PlaybackState Fps
  pause self = record self { paused = true }

  unfoldable pub resume : PlaybackState Fps → PlaybackState Fps
  resume self = record self { paused = false }

  unfoldable pub seek : PlaybackState Fps → Duration → PlaybackState Fps
  seek self position = record self { position = position; elapsed_since_frame = 0 }
