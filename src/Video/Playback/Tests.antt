-- ===== src/Video/Playback/Tests.antt =====
-- Ticks at a frame interval of 40 ms.
use kalidokit_rust.Base.{◌+◌, ◌*◌, ◌≡◌, refl, Bool, true, false, List, [], ◌∷◌, some, arith}
use kalidokit_rust.Base.Time.{Duration, max_duration}
use kalidokit_rust.Video.Playback.{PlaybackState, new, tick, check_end_of_stream}
use kalidokit_rust.Video.Playback.Pacing.{total, run, run-conserved}

abbrev state : PlaybackState Bool
state = record {
  position = 0;
  duration = 100;
  fps = true;
  looping = true;
  paused = false;
  frame_interval = 40;
  elapsed_since_frame = 0;
}

built_state : new (λ fps. some 40) 100 true true ≡ state
unfolding new
built_state = refl

looped : check_end_of_stream (record state { position = 120 }) ≡ (state, true)
unfolding check_end_of_stream
looped = refl

abbrev dts : List Duration
dts = 30 ∷ 30 ∷ 30 ∷ []

two_frames : (run state dts).1 ≡ 2
unfolding run tick max_duration
two_frames = refl

run-conserved_example :
    ((run state dts).1 * 40 + (run state dts).0.elapsed_since_frame ≡ 0 + total dts)
    × ((run state dts).0.position ≡ 0 + total dts)
unfolding max_duration
run-conserved_example = run-conserved dts state refl (omega arith) (omega arith)
