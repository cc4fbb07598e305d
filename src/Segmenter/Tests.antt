-- ===== src/Segmenter/Tests.antt =====
-- Runs of the segmenter at concrete frames.
use kalidokit_rust.Base.{
  ℕ, ◌+◌, ◌*◌, ◌≡◌, refl, Bool, true, false, none, some, List, [], ◌∷◌, ◌++◌, arith, length, leb,
}
use kalidokit_rust.Segmenter.{
  SpeechEvent, voice_start, voice_end, idle, speaking, trailing_silence, VadSegmenter, EtdPredictFn,
  new, set_etd_predict, set_extended_silence_timeout_ms, feed_with_raw,
}
use kalidokit_rust.Segmenter.Invariant.{Frame, Legal, step, run, run-Legal}
use kalidokit_rust.Segmenter.Audio.{audio_of, segment_audio}
use kalidokit_rust.Segmenter.Timing.{silence_ends, onset_ends}

-- A predictor that counts its calls, and takes a turn of four samples to be complete.
abbrev predictor : EtdPredictFn ℕ ℕ ℕ
predictor calls audio =
    (some (record { prediction = leb 4 (length audio); probability = 70 }), calls + 1)

abbrev frame : Bool → ℕ → ℕ → Frame ℕ
frame v a ms = record {
  is_voice = v;
  samples = a ∷ [];
  raw_samples = a ∷ [];
  timestamp = ms * 1000000;
}

abbrev fresh : VadSegmenter ℕ ℕ
fresh = record {
  state = idle;
  min_speech_ms = 20;
  silence_timeout_ms = 50;
  extended_silence_timeout_ms = 150;
  audio_buffer = [];
  voice_start_at = 0;
  etd_predict = none;
}

abbrev waiting : VadSegmenter ℕ ℕ
waiting = record fresh {
  state = trailing_silence 30000000 false;
  audio_buffer = 1 ∷ 2 ∷ [];
  voice_start_at = 10000000;
}

abbrev asked : VadSegmenter ℕ ℕ
asked = record waiting { state = speaking; etd_predict = some 0 }

new-fresh : new 20 50 ≡ fresh
unfolding new
new-fresh = refl

abbrev speech : List (Frame ℕ)
speech = frame true 1 10 ∷ frame false 2 30 ∷ frame false 3 40 ∷ frame false 4 90 ∷ []

speech_ends :
    (run predictor fresh speech).1
    ≡ voice_start 10000000
      ∷ voice_end 90000000 (1 ∷ 2 ∷ 3 ∷ 4 ∷ []) 80000000 none 0 0 (some true) none
      ∷ []
unfolding run step feed_with_raw
speech_ends = refl

extended_waits :
    (run predictor (set_extended_silence_timeout_ms (set_etd_predict fresh 0) 90) speech).1
    ≡ voice_start 10000000 ∷ []
unfolding run step feed_with_raw set_extended_silence_timeout_ms set_etd_predict
extended_waits = refl

run-Legal_example : Legal 20 none (run predictor fresh speech).1
run-Legal_example = run-Legal predictor fresh speech refl

abbrev last_event : SpeechEvent ℕ ℕ
last_event = voice_end 90000000 (1 ∷ 2 ∷ 3 ∷ 4 ∷ []) 80000000 none 0 0 (some true) none

segment_audio_example : audio_of last_event ≡ (1 ∷ []) ++ (2 ∷ 3 ∷ []) ++ (4 ∷ [])
unfolding run step feed_with_raw
segment_audio_example =
    segment_audio predictor fresh (frame true 1 10) (frame false 4 90)
      (frame false 2 30 ∷ frame false 3 40 ∷ []) 10000000 last_event refl refl refl refl

silence_ends_example : run predictor waiting ((frame false 3 40 ∷ []) ++ frame false 4 80 ∷ []) ≡ (
  record waiting { state = idle; audio_buffer = [] },
  voice_end 80000000 (1 ∷ 2 ∷ 3 ∷ 4 ∷ []) 70000000 none 0 0 (some true) none ∷ [],
)
silence_ends_example =
    silence_ends predictor waiting 30000000 false (frame false 3 40 ∷ []) (frame false 4 80) refl
      (omega arith) ((refl, omega arith), tt) refl (omega arith)

-- The predictor takes the turn to be incomplete, so the extended timeout counts.
onset_ends_example :
    run predictor asked (frame false 3 30 ∷ ((frame false 4 100 ∷ []) ++ frame false 5 500 ∷ []))
    ≡ (
      record asked { state = idle; audio_buffer = []; etd_predict = some 1 },
      voice_end 500000000 (1 ∷ 2 ∷ 3 ∷ 4 ∷ 5 ∷ []) 490000000 none 0 0 (some false) none ∷ [],
    )
onset_ends_example =
    onset_ends predictor asked 0 (frame false 3 30) true (frame false 4 100 ∷ [])
      (frame false 5 500) refl refl refl (refl, refl) (omega arith) ((refl, omega arith), tt) refl
      (omega arith)
