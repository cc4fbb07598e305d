-- ===== src/Segmenter/Invariant.antt =====
-- What one frame does to the segmenter of crates/speech-capture/src/segmenter.rs, in three cases,
-- and the shape of the event stream.
use kalidokit_rust.Base.{
  ℕ, ◌-◌, ◌≤◌, ◌≡◌, ◌≢◌, refl, sym, ap, ◌∙◌, length, Bool, true, false, not, Option, none, some,
  List, [], ◌∷◌, ◌++◌, arith, Bool-cases, inl, inr, leb, leb→le, if◌then◌else◌,
}
use kalidokit_rust.Base.Time.{Duration, from_millis}
use kalidokit_rust.Segmenter.{
  SpeechEvent, voice_start, voice_end, transcript_interim, vad_status, State, idle, speaking,
  trailing_silence, VadSegmenter, EtdPredictFn, EarlyCutResult, is_speaking, feed_with_raw,
  dispatch, finish, ask, on_silence, on_trailing,
}

-- One frame of the voice detector.
pub record Frame (Sample : Type 0) : Type 0 where
  pub is_voice : Bool
  pub samples : List Sample
  pub raw_samples : List Sample
  pub timestamp : Duration

module _ {Sample Prob S : Type 0} where
  -- A frame either keeps silent, opens a segment, or closes one.
  pub data Outcome (s s' : VadSegmenter Sample S) (raw : List Sample) (now : Duration)
      : List (SpeechEvent Sample Prob) → Type 0 where
    quiet :
        s'.min_speech_ms ≡ s.min_speech_ms
        → (is_speaking s' ≡ true
            → (is_speaking s ≡ true)
              × (s'.voice_start_at ≡ s.voice_start_at)
              × (s'.audio_buffer ≡ s.audio_buffer ++ raw))
        → Outcome s s' raw now []
    opened :
        s'.min_speech_ms ≡ s.min_speech_ms
        → is_speaking s ≡ false
        → is_speaking s' ≡ true
        → s'.voice_start_at ≡ now
        → s'.audio_buffer ≡ raw
        → Outcome s s' raw now (voice_start now ∷ [])
    closed :
        s'.min_speech_ms ≡ s.min_speech_ms
        → is_speaking s ≡ true
        → is_speaking s' ≡ false
        → from_millis s.min_speech_ms ≤ now - s.voice_start_at
        → (turn : Bool) (probability : Option Prob)
        → Outcome s s' raw now (
            voice_end now
              (s.audio_buffer ++ raw)
              (now - s.voice_start_at)
              none
              0
              0
              (some turn)
              probability
            ∷ [])

module _ {Sample Prob S : Type 0} (predict_fn : EtdPredictFn Sample Prob S) where
  unfoldable pub step :
      VadSegmenter Sample S → Frame Sample → VadSegmenter Sample S × List (SpeechEvent Sample Prob)
  step s f = feed_with_raw predict_fn s f.is_voice f.samples f.raw_samples f.timestamp

  -- A stream of frames, as the worker feeds it.
  unfoldable pub run :
      VadSegmenter Sample S
      → List (Frame Sample)
      → VadSegmenter Sample S × List (SpeechEvent Sample Prob)
  run s [] = (s, [])
  run s (f ∷ fs) = let (s', es) = step s f in let (s'', rest) = run s' fs in (s'', es ++ rest)

  finish-Outcome :
      (s t : VadSegmenter Sample S) (raw : List Sample) (now : Duration) (turn : Bool)
      (p : Option Prob)
      → is_speaking s ≡ true
      → t.min_speech_ms ≡ s.min_speech_ms
      → t.voice_start_at ≡ s.voice_start_at
      → t.audio_buffer ≡ s.audio_buffer ++ raw
      → let r = finish predict_fn t now turn p in Outcome s r.0 raw now r.1
  unfolding finish
  finish-Outcome s t raw now turn p live m v b =
      elim (Bool-cases (leb (from_millis t.min_speech_ms) (now - t.voice_start_at))) [
        | inl e ↦ rw e (
            rw (v, b)
              (closed m live refl
                (rw (← m, ← v) (leb→le (from_millis t.min_speech_ms) (now - t.voice_start_at) e))
                turn p))
        | inr e ↦ rw e (quiet m (λ h. cc))
      ]

  on_silence-Outcome :
      (s t : VadSegmenter Sample S) (raw : List Sample) (now : Duration)
      → is_speaking s ≡ true
      → t.min_speech_ms ≡ s.min_speech_ms
      → t.voice_start_at ≡ s.voice_start_at
      → t.audio_buffer ≡ s.audio_buffer ++ raw
      → let r = on_silence predict_fn t now in Outcome s r.0 raw now r.1
  unfolding on_silence
  on_silence-Outcome s t raw now live m v b = go (ask predict_fn t.etd_predict t.audio_buffer) refl
    where
      go :
          (a : Option (EarlyCutResult Prob) × Option S)
          → ask predict_fn t.etd_predict t.audio_buffer ≡ a
          → let r = on_silence predict_fn t now in Outcome s r.0 raw now r.1
      go (none, q) e = rw (e, on_silence) (quiet m (λ _. (live, v, b)))
      go (some r, q) e = elim (Bool-cases r.prediction) [
        | inl h ↦
            rw (e, on_silence)
              (rw h (
                finish-Outcome s
                  (record t { etd_predict = (ask predict_fn t.etd_predict t.audio_buffer).1 }) raw
                  now true (some r.probability) live m v b))
        | inr h ↦ rw (e, on_silence) (rw h (quiet m (λ _. (live, v, b))))
      ]

  on_trailing-Outcome :
      (s t : VadSegmenter Sample S) (raw : List Sample) (since : Duration) (inc : Bool)
      (now : Duration)
      → is_speaking s ≡ true
      → is_speaking t ≡ true
      → t.min_speech_ms ≡ s.min_speech_ms
      → t.voice_start_at ≡ s.voice_start_at
      → t.audio_buffer ≡ s.audio_buffer ++ raw
      → let r = on_trailing predict_fn t since inc now in Outcome s r.0 raw now r.1
  unfolding on_trailing
  on_trailing-Outcome s t raw since inc now live live' m v b =
      elim (Bool-cases (
        leb (from_millis (if inc then t.extended_silence_timeout_ms else t.silence_timeout_ms))
          (now - since))) [
            | inl e ↦ rw e (finish-Outcome s t raw now (not inc) none live m v b)
            | inr e ↦ rw e (quiet m (λ _. (live, v, b)))
          ]

  dispatch-Outcome :
      (p : State) (s : VadSegmenter Sample S) (voice : Bool) (raw : List Sample) (now : Duration)
      → s.state ≡ p
      → let r = dispatch predict_fn p voice raw now s in Outcome s r.0 raw now r.1
  unfolding dispatch
  dispatch-Outcome idle s true raw now e = opened refl (cc) refl refl refl
  dispatch-Outcome idle s false raw now e = quiet refl (λ h. cc)
  dispatch-Outcome speaking s true raw now e = quiet refl (λ _. (cc, refl, refl))
  dispatch-Outcome speaking s false raw now e =
      on_silence-Outcome s (record s { audio_buffer = s.audio_buffer ++ raw }) raw now (cc) refl
        refl refl
  dispatch-Outcome (trailing_silence since inc) s true raw now e =
      quiet refl (λ _. (cc, refl, refl))
  dispatch-Outcome (trailing_silence since inc) s false raw now e =
      on_trailing-Outcome s (record s { audio_buffer = s.audio_buffer ++ raw }) raw since inc now
        (cc) (cc) refl refl refl

  -- Every frame is one of the three cases.
  pub step-Outcome :
      (s : VadSegmenter Sample S) (f : Frame Sample)
      → Outcome s (step s f).0 f.raw_samples f.timestamp (step s f).1
  unfolding step feed_with_raw
  step-Outcome s f = dispatch-Outcome s.state s f.is_voice f.raw_samples f.timestamp refl

-- The events of a whole stream: a segment is opened before it is closed, `start` is when the open
-- one began, and what closes it says how long it was, which is not less than the minimum.
abbrev pub Legal :
    {Sample Prob : Type 0} → ℕ → Option Duration → List (SpeechEvent Sample Prob) → Type 0
Legal min_ms start [] = Unit {0}
Legal min_ms start (voice_start t ∷ es) = Legal min_ms (some t) es
Legal min_ms none (voice_end _ _ _ _ _ _ _ _ ∷ es) = ⊥
Legal min_ms (some t) (voice_end now audio duration transcript _ _ turn _ ∷ es) =
    (duration ≡ now - t)
    × (from_millis min_ms ≤ duration)
    × (transcript ≡ none)
    × (turn ≢ none)
    × Legal min_ms none es
Legal min_ms start (transcript_interim _ _ ∷ es) = ⊥
Legal min_ms start (vad_status _ _ _ ∷ es) = ⊥

-- `start` remembers the segment that is open.
abbrev Tracks : {Sample S : Type 0} → VadSegmenter Sample S → Option Duration → Type 0
Tracks s start = is_speaking s ≡ true → start ≡ some s.voice_start_at

module _ {Sample Prob S : Type 0} (predict_fn : EtdPredictFn Sample Prob S) where
  Outcome-Legal :
      (min_ms : ℕ) (start : Option Duration) (s s' : VadSegmenter Sample S) {raw : List Sample}
      {now : Duration} {es : List (SpeechEvent Sample Prob)} (rest : List (SpeechEvent Sample Prob))
      → Outcome s s' raw now es
      → s.min_speech_ms ≡ min_ms
      → Tracks s start
      → ((start' : Option Duration)
          → s'.min_speech_ms ≡ min_ms
          → Tracks s' start'
          → Legal min_ms start' rest)
      → Legal min_ms start (es ++ rest)
  Outcome-Legal min_ms start s s' rest (quiet m live) h t k =
      k start (m ∙ h) (λ l. t (live l).0 ∙ ap some (sym (live l).1))
  Outcome-Legal min_ms start s s' {now = now} rest (opened m _ _ v _) h t k =
      k (some now) (m ∙ h) (λ _. ap some (sym v))
  Outcome-Legal min_ms none s s' rest (closed m live _ _ _ _) h t k = cc (t live)
  Outcome-Legal min_ms (some t0) s s' {now = now} rest (closed m live dead d turn p) h t k = (
    ap (λ (x : ℕ). now - x) (sym (same (t live))),
    rw (← h) d,
    refl,
    (λ e. cc),
    k none (m ∙ h) (λ l. cc),
  )
    where
      same : some t0 ≡ some s.voice_start_at → t0 ≡ s.voice_start_at
      same e = cc

  run-Legal_from :
      (min_ms : ℕ) (start : Option Duration) (s : VadSegmenter Sample S) (fs : List (Frame Sample))
      → s.min_speech_ms ≡ min_ms
      → Tracks s start
      → Legal min_ms start (run predict_fn s fs).1
  unfolding run
  run-Legal_from min_ms start s [] h t = tt
  run-Legal_from min_ms start s (f ∷ fs) h t =
      Outcome-Legal min_ms start s (step predict_fn s f).0
        (run predict_fn (step predict_fn s f).0 fs).1 (step-Outcome predict_fn s f) h t
        (λ start' m t'. run-Legal_from min_ms start' (step predict_fn s f).0 fs m t')

  -- The events of any stream of frames, from an idle segmenter, whatever the predictor answers:
  -- each voice end follows the voice start of its segment, with no other end between, its duration
  -- is the time since that start and not below the minimum, it has no transcript, and it says
  -- whether the turn has ended.
  pub run-Legal :
      (s : VadSegmenter Sample S) (fs : List (Frame Sample))
      → s.state ≡ idle
      → Legal s.min_speech_ms none (run predict_fn s fs).1
  run-Legal s fs h = run-Legal_from s.min_speech_ms none s fs refl (λ l. cc)

  -- A frame gives at most one event.
  pub step_at_most_one :
      (s : VadSegmenter Sample S) (f : Frame Sample) → length (step predict_fn s f).1 ≤ 1
  step_at_most_one s f = go (step-Outcome predict_fn s f)
    where
      go :
          {s' : VadSegmenter Sample S} {es : List (SpeechEvent Sample Prob)}
          → Outcome s s' f.raw_samples f.timestamp es
          → length es ≤ 1
      go (quiet _ _) = omega arith
      go (opened _ _ _ _ _) = omega arith
      go (closed _ _ _ _ _ _) = omega arith
