-- ===== src/Segmenter.antt =====
-- crates/speech-capture/src/segmenter.rs: the voice activity segmenter, and the events of
-- crates/speech-capture/src/lib.rs that it emits. Time is in nanoseconds. Samples and
-- probabilities are parameters: the segmenter stores them and never computes with them. The
-- end-of-turn predictor is a closure with a state of its own, so `feed_with_raw` takes a function
-- on that state, and the segmenter holds the state where the source holds the closure.
pub mod Invariant
pub mod Audio
pub mod Timing
mod Tests
use kalidokit_rust.Base.{
  ℕ, ◌*◌, ◌-◌, ◌%◌, ◌^◌, Bool, true, false, not, Option, none, some, List, [], ◌∷◌, ◌++◌, leb,
  if◌then◌else◌,
}
use kalidokit_rust.Base.Text.{Text}
use kalidokit_rust.Base.Time.{Duration, from_millis}

pub data SpeechEvent (Sample Prob : Type 0) : Type 0 where
  voice_start : (timestamp : Duration) → SpeechEvent Sample Prob
  transcript_interim : (timestamp : Duration) (text : Text) → SpeechEvent Sample Prob
  voice_end :
      (timestamp : Duration) (audio : List Sample) (duration : Duration) (transcript : Option Text)
      (whisper_latency_ms perceived_latency_ms : ℕ) (end_of_turn : Option Bool)
      (turn_probability : Option Prob)
      → SpeechEvent Sample Prob
  vad_status :
      (timestamp : Duration) (probability : Prob) (is_voice : Bool) → SpeechEvent Sample Prob

pub data State : Type 0 where
  idle : State
  speaking : State
  trailing_silence : (silence_start : Duration) (etd_incomplete : Bool) → State

pub record EarlyCutResult (Prob : Type 0) : Type 0 where
  pub prediction : Bool
  pub probability : Prob

-- The closure: it may change its own state.
abbrev pub EtdPredictFn : Type 0 → Type 0 → Type 0 → Type 0
EtdPredictFn Sample Prob S = S → List Sample → Option (EarlyCutResult Prob) × S

pub record VadSegmenter (Sample S : Type 0) : Type 0 where
  pub state : State
  pub min_speech_ms : ℕ
  pub silence_timeout_ms : ℕ
  pub extended_silence_timeout_ms : ℕ
  pub audio_buffer : List Sample
  pub voice_start_at : Duration
  pub etd_predict : Option S

-- `silence_timeout_ms * 3` on u32.
unfoldable pub new : {Sample S : Type 0} → ℕ → ℕ → VadSegmenter Sample S
new min_speech_ms silence_timeout_ms = record {
  state = idle;
  min_speech_ms = min_speech_ms;
  silence_timeout_ms = silence_timeout_ms;
  extended_silence_timeout_ms = silence_timeout_ms * 3 % 2 ^ 32;
  audio_buffer = [];
  voice_start_at = 0;
  etd_predict = none;
}

abbrev pub state_is_speaking : State → Bool
state_is_speaking idle = false
state_is_speaking speaking = true
state_is_speaking (trailing_silence _ _) = true

module _ {Sample S : Type 0} where
  unfoldable pub set_extended_silence_timeout_ms : VadSegmenter Sample S → ℕ → VadSegmenter Sample S
  set_extended_silence_timeout_ms s ms = record s { extended_silence_timeout_ms = ms }

  unfoldable pub set_etd_predict : VadSegmenter Sample S → S → VadSegmenter Sample S
  set_etd_predict s predict = record s { etd_predict = some predict }

  abbrev pub is_speaking : VadSegmenter Sample S → Bool
  is_speaking s = state_is_speaking s.state

  abbrev pub accumulated_audio : VadSegmenter Sample S → List Sample
  accumulated_audio s = s.audio_buffer

module _ {Sample Prob S : Type 0} (predict_fn : EtdPredictFn Sample Prob S) where
  -- The end of a segment, at lines 129-144 and 175-191: the event unless the speech is too short,
  -- an empty buffer, and the idle state.
  finish :
      VadSegmenter Sample S
      → Duration
      → Bool
      → Option Prob
      → VadSegmenter Sample S × List (SpeechEvent Sample Prob)
  finish s timestamp turn probability =
      let speech_dur = timestamp - s.voice_start_at in
      let event : SpeechEvent Sample Prob =
        voice_end timestamp s.audio_buffer speech_dur none 0 0 (some turn) probability in
      (
        record s { state = idle; audio_buffer = [] },
        if leb (from_millis s.min_speech_ms) speech_dur then event ∷ [] else [],
      )

  -- `self.etd_predict` asked about the buffer: the answer, and the predictor after it.
  ask : Option S → List Sample → Option (EarlyCutResult Prob) × Option S
  ask none audio = (none, none)
  ask (some p) audio = let (r, p') = predict_fn p audio in (r, some p')

  -- Silence after speech, lines 122-156; the buffer already holds the frame.
  on_silence :
      VadSegmenter Sample S → Duration → VadSegmenter Sample S × List (SpeechEvent Sample Prob)
  unfolding finish ask
  on_silence s timestamp =
      let (answer, predictor) = ask s.etd_predict s.audio_buffer in
      let asked = record s { etd_predict = predictor } in
      let waiting =
        λ (incomplete : Bool). record asked { state = trailing_silence timestamp incomplete } in
      elim answer [
        | none ↦ (waiting false, [])
        | some r ↦
            if r.prediction
            then finish asked timestamp true (some r.probability)
            else (waiting true, [])
      ]

  -- More silence, lines 167-192.
  on_trailing :
      VadSegmenter Sample S
      → Duration
      → Bool
      → Duration
      → VadSegmenter Sample S × List (SpeechEvent Sample Prob)
  unfolding finish
  on_trailing s silence_start etd_incomplete timestamp =
      let timeout_ms =
        if etd_incomplete then s.extended_silence_timeout_ms else s.silence_timeout_ms in
      if leb (from_millis timeout_ms) (timestamp - silence_start)
      then finish s timestamp (not etd_incomplete) none
      else (s, [])

  -- The `match` of `feed_with_raw`.
  unfoldable pub dispatch :
      State
      → Bool
      → List Sample
      → Duration
      → VadSegmenter Sample S
      → VadSegmenter Sample S × List (SpeechEvent Sample Prob)
  unfolding on_silence on_trailing
  dispatch idle is_voice raw_samples timestamp s =
      if is_voice
      then (
        record s { voice_start_at = timestamp; audio_buffer = raw_samples; state = speaking },
        voice_start timestamp ∷ [],
      )
      else (s, [])
  dispatch speaking is_voice raw_samples timestamp s =
      let s' = record s { audio_buffer = s.audio_buffer ++ raw_samples } in
      if is_voice then (s', []) else on_silence s' timestamp
  dispatch (trailing_silence silence_start etd_incomplete) is_voice raw_samples timestamp s =
      let s' = record s { audio_buffer = s.audio_buffer ++ raw_samples } in
      if is_voice
      then (record s' { state = speaking }, [])
      else on_trailing s' silence_start etd_incomplete timestamp

  -- `samples` is not read: the predictor is asked about the buffer of raw samples.
  unfoldable pub feed_with_raw :
      VadSegmenter Sample S
      → Bool
      → List Sample
      → List Sample
      → Duration
      → VadSegmenter Sample S × List (SpeechEvent Sample Prob)
  unfolding dispatch
  feed_with_raw s is_voice samples raw_samples timestamp =
      dispatch s.state is_voice raw_samples timestamp s

  unfoldable pub feed :
      VadSegmenter Sample S
      → Bool
      → List Sample
      → Duration
      → VadSegmenter Sample S × List (SpeechEvent Sample Prob)
  feed s is_voice samples timestamp = feed_with_raw s is_voice samples samples timestamp
