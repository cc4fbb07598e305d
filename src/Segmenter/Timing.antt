-- ===== src/Segmenter/Timing.antt =====
-- When crates/speech-capture/src/segmenter.rs ends a segment: the silence timeout, short pauses,
-- and the early cut by the predictor.
use kalidokit_rust.Base.{
  ◌+◌, ◌-◌, ◌≤◌, ◌<◌, ◌≡◌, ◌∙◌, refl, Bool, true, false, not, Option, Option-cases, inl, inr, none,
  some, List, [], ◌∷◌, ◌++◌, arith, leb, if◌then◌else◌, lt→leb, le→leb, All, append_assoc,
  append-nil,
}
use kalidokit_rust.Base.Time.{Duration, from_millis}
use kalidokit_rust.Segmenter.{
  SpeechEvent, voice_end, idle, speaking, trailing_silence, VadSegmenter, EtdPredictFn,
  EarlyCutResult, feed_with_raw,
}
use kalidokit_rust.Segmenter.Invariant.{Frame, step, run}
use kalidokit_rust.Segmenter.Audio.{raw_audio}

module _ {Sample S : Type 0} where
  -- The silence that ends a segment, given what the predictor said at its onset.
  abbrev pub timeout : VadSegmenter Sample S → Bool → Duration
  timeout s etd_incomplete =
      from_millis (if etd_incomplete then s.extended_silence_timeout_ms else s.silence_timeout_ms)

-- A frame without voice, before `limit`.
abbrev pub IsPause : {Sample : Type 0} → Duration → Frame Sample → Type 0
IsPause limit f = (f.is_voice ≡ false) × (f.timestamp < limit)

module _ {Sample Prob S : Type 0} (predict_fn : EtdPredictFn Sample Prob S) where
  -- The end of a segment by silence: the segmenter and the events.
  abbrev pub ended :
      VadSegmenter Sample S
      → Bool
      → List Sample
      → Duration
      → VadSegmenter Sample S × List (SpeechEvent Sample Prob)
  ended s inc audio now = (
    record s { state = idle; audio_buffer = [] },
    if leb (from_millis s.min_speech_ms) (now - s.voice_start_at)
        then voice_end now audio (now - s.voice_start_at) none 0 0 (some (not inc)) none ∷ []
        else [],
  )

  step_pause :
      (s : VadSegmenter Sample S) (since : Duration) (inc : Bool) (f : Frame Sample)
      → s.state ≡ trailing_silence since inc
      → IsPause (since + timeout s inc) f
      → 0 < timeout s inc
      → step predict_fn s f ≡ (record s { audio_buffer = s.audio_buffer ++ f.raw_samples }, [])
  unfolding step feed_with_raw
  step_pause s since inc f h p q =
      rw (h, p.0) (rw (lt→leb (timeout s inc) (f.timestamp - since) (omega (arith, p.1))) refl)

  step_resume :
      (s : VadSegmenter Sample S) (since : Duration) (inc : Bool) (f : Frame Sample)
      → s.state ≡ trailing_silence since inc
      → f.is_voice ≡ true
      → step predict_fn s f
        ≡ (record s { audio_buffer = s.audio_buffer ++ f.raw_samples; state = speaking }, [])
  unfolding step feed_with_raw
  step_resume s since inc f h v = rw (h, v)

  step-timeout :
      (s : VadSegmenter Sample S) (since : Duration) (inc : Bool) (f : Frame Sample)
      → s.state ≡ trailing_silence since inc
      → f.is_voice ≡ false
      → since + timeout s inc ≤ f.timestamp
      → step predict_fn s f ≡ ended s inc (s.audio_buffer ++ f.raw_samples) f.timestamp
  unfolding step feed_with_raw
  step-timeout s since inc f h v d =
      rw (h, v) (rw (le→leb (timeout s inc) (f.timestamp - since) (omega arith)) refl)

  -- In trailing silence with a timeout above 0, a pause that is shorter than it does not split a segment: however many silent frames
  -- arrive before it has run out, the first frame with voice after them goes on with the same
  -- segment, no event is given, and the samples of every frame are kept.
  pub pause_merges :
      (s : VadSegmenter Sample S) (since : Duration) (inc : Bool) (fs : List (Frame Sample))
      (g : Frame Sample)
      → s.state ≡ trailing_silence since inc
      → 0 < timeout s inc
      → All (IsPause (since + timeout s inc)) fs
      → g.is_voice ≡ true
      → run predict_fn s (fs ++ g ∷ []) ≡ (
        record s {
          audio_buffer = s.audio_buffer ++ raw_audio fs ++ g.raw_samples;
          state = speaking;
        },
        [],
      )
  unfolding run
  pause_merges s since inc [] g h q a v =
      rw (step_resume s since inc g h v, append-nil s.audio_buffer)
  pause_merges s since inc (f ∷ fs) g h q a v = rw (step_pause s since inc f h a.0 q) (
      rw
        (pause_merges (record s { audio_buffer = s.audio_buffer ++ f.raw_samples }) since inc fs g h
          q a.1 v)
        (rw (append_assoc s.audio_buffer f.raw_samples (raw_audio fs))))

  -- In trailing silence with a timeout above 0, the timeout ends a segment: after silent frames before the deadline, the first silent
  -- frame at or after it makes the segmenter idle with an empty buffer, and gives the one voice
  -- end event with all the audio, unless the speech was shorter than the minimum, when the audio
  -- is dropped and there is no event.
  pub silence_ends :
      (s : VadSegmenter Sample S) (since : Duration) (inc : Bool) (fs : List (Frame Sample))
      (g : Frame Sample)
      → s.state ≡ trailing_silence since inc
      → 0 < timeout s inc
      → All (IsPause (since + timeout s inc)) fs
      → g.is_voice ≡ false
      → since + timeout s inc ≤ g.timestamp
      → run predict_fn s (fs ++ g ∷ [])
        ≡ ended s inc (s.audio_buffer ++ raw_audio fs ++ g.raw_samples) g.timestamp
  unfolding run
  silence_ends s since inc [] g h q a v d =
      rw (step-timeout s since inc g h v d, append-nil s.audio_buffer)
        (rw (append-nil (ended s inc (s.audio_buffer ++ g.raw_samples) g.timestamp).1))
  silence_ends s since inc (f ∷ fs) g h q a v d = rw (step_pause s since inc f h a.0 q) (
      rw
        (silence_ends (record s { audio_buffer = s.audio_buffer ++ f.raw_samples }) since inc fs g h
          q a.1 v d)
        (rw (append_assoc s.audio_buffer f.raw_samples (raw_audio fs))))

  -- The first silent frame, with a predictor.
  onset :
      (s : VadSegmenter Sample S) (p : S) (f : Frame Sample)
      → s.state ≡ speaking
      → s.etd_predict ≡ some p
      → f.is_voice ≡ false
      → let audio = s.audio_buffer ++ f.raw_samples in
        let (answer, p') = predict_fn p audio in
        let heard = record s { audio_buffer = audio; etd_predict = some p' } in
        step predict_fn s f ≡ elim answer [
          | none ↦ (record heard { state = trailing_silence f.timestamp false }, [])
          | some r ↦
              if r.prediction
              then (
                record heard { state = idle; audio_buffer = [] },
                if leb (from_millis s.min_speech_ms) (f.timestamp - s.voice_start_at)
                    then voice_end f.timestamp audio
                        (f.timestamp - s.voice_start_at)
                        none
                        0
                        0
                        (some true)
                        (some r.probability)
                      ∷ []
                    else [],
              )
              else (record heard { state = trailing_silence f.timestamp true }, [])
        ]
  unfolding step feed_with_raw
  onset s p f h e v = rw (h, v) (rw e refl)

  -- What the predictor says at the onset of silence, when the segment goes on: the turn is incomplete,
  -- or there is no answer.
  abbrev pub Waits : Option (EarlyCutResult Prob) → Bool → Type 0
  Waits none inc = inc ≡ false
  Waits (some r) inc = (r.prediction ≡ false) × (inc ≡ true)

  step_onset :
      (s : VadSegmenter Sample S) (p : S) (f : Frame Sample) (inc : Bool)
      → s.state ≡ speaking
      → s.etd_predict ≡ some p
      → f.is_voice ≡ false
      → let audio = s.audio_buffer ++ f.raw_samples in
        let asked = predict_fn p audio in
        Waits asked.0 inc
        → step predict_fn s f ≡ (
          record s {
            audio_buffer = audio;
            etd_predict = some asked.1;
            state = trailing_silence f.timestamp inc;
          },
          [],
        )
  step_onset s p f inc h e v w =
      onset s p f h e v ∙ elim (Option-cases (predict_fn p (s.audio_buffer ++ f.raw_samples)).0) [
        | inl silent ↦ let normal = rw silent at w in rw (silent, normal) refl
        | inr (r, said) ↦
            let (incomplete, extended) = rw said at w in rw (said, incomplete, extended) refl
      ]

  -- A segmenter with a predictor, speaking, and silence until it ends the segment. The predictor is
  -- asked at the first silent frame, about the audio with that frame in it, and says that the turn is
  -- incomplete, or nothing. The deadline counts from that frame: the extended timeout after an
  -- incomplete turn, the normal one after no answer, either above 0. After silent frames before it,
  -- the first at or after it makes the segmenter idle, with the predictor's new state and an empty
  -- buffer, and gives the one voice end event with the audio of every frame, which says whether the
  -- turn was complete, or no event when the speech was shorter than the minimum.
  pub onset_ends :
      (s : VadSegmenter Sample S) (p : S) (f : Frame Sample) (inc : Bool) (fs : List (Frame Sample))
      (g : Frame Sample)
      → s.state ≡ speaking
      → s.etd_predict ≡ some p
      → f.is_voice ≡ false
      → let asked = predict_fn p (s.audio_buffer ++ f.raw_samples) in
        Waits asked.0 inc
        → 0 < timeout s inc
        → All (IsPause (f.timestamp + timeout s inc)) fs
        → g.is_voice ≡ false
        → f.timestamp + timeout s inc ≤ g.timestamp
        → run predict_fn s (f ∷ (fs ++ g ∷ []))
          ≡ ended
              (record s { etd_predict = some asked.1 })
              inc
              (s.audio_buffer ++ raw_audio (f ∷ fs) ++ g.raw_samples)
              g.timestamp
  unfolding run
  onset_ends s p f inc fs g h e v w q a u d =
      let audio = s.audio_buffer ++ f.raw_samples in
      let waiting = record s {
        audio_buffer = audio;
        etd_predict = some (predict_fn p audio).1;
        state = trailing_silence f.timestamp inc;
      } in
      rw (step_onset s p f inc h e v w) (
        rw (silence_ends waiting f.timestamp inc fs g refl q a u d)
          (rw (append_assoc s.audio_buffer f.raw_samples (raw_audio fs)) refl))
