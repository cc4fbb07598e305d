-- ===== src/Speech/Worker.antt =====
-- crates/speech-capture/src/lib.rs, `vad_worker`, with the features `stt` and `end-of-turn`; `SttMode`
-- of stt_types.rs and `HopSize` of crates/ten-vad/src/lib.rs. The voice detector, the noise
-- suppression, the detector of the end of a turn and the transcription are parameters, each with a
-- state of its own. One detector is shared with the segmenter, which holds its state here. A step
-- gives the worker and the events that it hands to the callback, in order. This file is the part of
-- the loop's body that calls the callback.
pub mod Loop
pub mod Passes
pub mod Stream
pub mod Stretch
pub mod Segments
pub mod Order
pub mod Buffers
mod Tests
use kalidokit_rust.Base.{
  ℕ, zero, suc, ◌-◌, ◌/◌, ◌%◌, ◌^◌, Bool, true, false, not, ◌&&◌, ◌||◌, Option, none, some, List,
  [], ◌∷◌, ◌++◌, String, ltb, leb, length, take, drop, if◌then◌else◌,
}
use kalidokit_rust.Base.Text.{Text}
use kalidokit_rust.Base.Time.{Duration, from_millis}
use kalidokit_rust.Base.Result.{Result, ok, err}
use kalidokit_rust.Segmenter.{
  SpeechEvent, voice_start, transcript_interim, voice_end, vad_status, EarlyCutResult, EtdPredictFn,
  VadSegmenter, set_etd_predict, is_speaking, accumulated_audio, feed_with_raw,
}
use kalidokit_rust.Segmenter

pub data SttMode : Type 0 where
  disabled batch : SttMode
  streaming : (interim_interval_ms : ℕ) → SttMode

pub record VadResult (Prob : Type 0) : Type 0 where
  pub probability : Prob
  pub is_voice : Bool

-- What a transcription gives, how long it took, and the time since the stream started after it.
pub record Transcribed : Type 0 where
  pub result : Result String Text
  pub stt_elapsed : Duration
  pub wall_now : Duration

pub record Env (Sample Prob V N S W : Type 0) : Type 0 where
  pub process : V → List Sample → V × Result String (VadResult Prob)
  pub new_denoiser : N
  pub denoise : N → List Sample → N × List Sample
  pub predict : EtdPredictFn Sample Prob S
  pub transcribe : W → List Sample → W × Result String Text
  pub transcribe_with_prob : W → List Sample → W × Transcribed
  -- The filter of speech_filter.rs at its default: whether it passes, and its least length.
  pub is_speech : List Sample → Bool
  pub min_audio_ms : ℕ

pub data HopSize : Type 0 where
  samples160 samples256 : HopSize

pub record SpeechConfig : Type 0 where
  pub hop_size : HopSize
  pub min_speech_duration_ms : ℕ
  pub silence_timeout_ms : ℕ
  pub emit_vad_status : Bool
  pub stt_mode : SttMode

-- The variables of the loop.
pub record Worker (Sample V N S W : Type 0) : Type 0 where
  pub vad_instance : V
  pub seg : VadSegmenter Sample S
  pub whisper_engine : Option W
  pub last_interim_time : Duration
  pub denoiser : Option N
  pub reframe_buf : List Sample
  pub raw_reframe_buf : List Sample

-- `as_millis() as u64`.
abbrev pub millis_u64 : Duration → ℕ
millis_u64 d = d / 1000000 % 2 ^ 64

abbrev pub text_of : Result String Text → Option Text
text_of (ok text) = some text
text_of (err e) = none

abbrev pub interim_of :
    {Sample Prob : Type 0} → Duration → Result String Text → List (SpeechEvent Sample Prob)
interim_of timestamp (err e) = []
interim_of timestamp (ok []) = []
interim_of timestamp (ok (c ∷ text)) = transcript_interim timestamp (c ∷ text) ∷ []

module _ {Sample Prob V N S W : Type 0} (env : Env Sample Prob V N S W)
    (config : SpeechConfig) where
  -- The interim transcription that is due.
  unfoldable pub transcribe_interim :
      W → Worker Sample V N S W → Duration → Worker Sample V N S W × List (SpeechEvent Sample Prob)
  transcribe_interim engine w timestamp =
      let (engine', answer) = env.transcribe engine (accumulated_audio w.seg) in
      let done = record w { last_interim_time = timestamp } in
      if ltb 0 (length (accumulated_audio w.seg))
      then (record done { whisper_engine = some engine' }, interim_of timestamp answer)
      else (done, [])

  unfoldable pub interim :
      SttMode
      → Option W
      → Worker Sample V N S W
      → Duration
      → Worker Sample V N S W × List (SpeechEvent Sample Prob)
  unfolding transcribe_interim
  interim (streaming interval_ms) (some engine) w timestamp =
      let elapsed = timestamp - w.last_interim_time in
      if is_speaking w.seg && leb (from_millis interval_ms) elapsed
      then transcribe_interim engine w timestamp
      else (w, [])
  interim (streaming interval_ms) none w timestamp = (w, [])
  interim disabled engine w timestamp = (w, [])
  interim batch engine w timestamp = (w, [])

  -- The end-of-turn fields where the segmenter left them open.
  unfoldable pub fall_back :
      VadSegmenter Sample S
      → List Sample
      → Option Bool
      → Option Prob
      → VadSegmenter Sample S × Option Bool × Option Prob
  fall_back seg audio (some turn) probability = (seg, some turn, probability)
  fall_back seg audio none probability = elim seg.etd_predict [
    | none ↦ (seg, none, probability)
    | some detector ↦
        let (answer, detector') = env.predict detector audio in
        let seg' = record seg { etd_predict = some detector' } in
        elim answer [
          | none ↦ (seg', none, probability)
          | some r ↦ (seg', some r.prediction, some r.probability)
        ]
  ]

  unfoldable pub skips : List Sample → Duration → Bool
  skips audio duration =
      not (env.is_speech audio)
      || (ltb 0 env.min_audio_ms && ltb (millis_u64 duration) env.min_audio_ms)

  -- The end of a segment with an engine that is on: skipped, or transcribed.
  unfoldable pub transcribe_end :
      W
      → Worker Sample V N S W
      → Duration
      → List Sample
      → Duration
      → Option Bool
      → Option Prob
      → Worker Sample V N S W × List (SpeechEvent Sample Prob)
  unfolding skips
  transcribe_end engine w timestamp audio duration turn probability =
      let (engine', answer) = env.transcribe_with_prob engine audio in
      let quiet = record w { last_interim_time = 0 } in
      if skips audio duration
      then (quiet, voice_end timestamp audio duration none 0 0 turn probability ∷ [])
      else (
        record quiet { whisper_engine = some engine' },
        voice_end timestamp audio duration (text_of answer.result) (millis_u64 answer.stt_elapsed)
              (millis_u64 (answer.wall_now - timestamp)) turn probability
            ∷ [],
      )

  -- An engine is there only where `stt` is configured, and off in the mode `disabled`.
  unfoldable pub emit_end :
      SttMode
      → Option W
      → Worker Sample V N S W
      → SpeechEvent Sample Prob
      → Duration
      → List Sample
      → Duration
      → Option Bool
      → Option Prob
      → Worker Sample V N S W × List (SpeechEvent Sample Prob)
  unfolding transcribe_end
  emit_end mode none w event timestamp audio duration turn probability = (w, event ∷ [])
  emit_end disabled (some engine) w event timestamp audio duration turn probability =
      (w, event ∷ [])
  emit_end batch (some engine) w event timestamp audio duration turn probability =
      transcribe_end engine w timestamp audio duration turn probability
  emit_end (streaming ms) (some engine) w event timestamp audio duration turn probability =
      transcribe_end engine w timestamp audio duration turn probability

  -- The body of the loop over the segmenter's events.
  unfoldable pub emit :
      Worker Sample V N S W
      → SpeechEvent Sample Prob
      → Worker Sample V N S W × List (SpeechEvent Sample Prob)
  unfolding fall_back emit_end
  emit w (voice_start timestamp) = (w, voice_start timestamp ∷ [])
  emit w (transcript_interim timestamp text) = (w, transcript_interim timestamp text ∷ [])
  emit w (vad_status timestamp probability is_voice) =
      (w, vad_status timestamp probability is_voice ∷ [])
  emit w (voice_end timestamp audio duration transcript whisper_ms perceived_ms turn probability) =
      let (seg, turn', probability') = fall_back w.seg audio turn probability in
      emit_end config.stt_mode w.whisper_engine (record w { seg = seg })
        (voice_end timestamp audio duration transcript whisper_ms perceived_ms turn' probability')
        timestamp audio duration turn' probability'

  unfoldable pub emit_all :
      Worker Sample V N S W
      → List (SpeechEvent Sample Prob)
      → Worker Sample V N S W × List (SpeechEvent Sample Prob)
  unfolding emit
  emit_all w [] = (w, [])
  emit_all w (e ∷ es) =
      let (w', out) = emit w e in let (w'', rest) = emit_all w' es in (w'', out ++ rest)
