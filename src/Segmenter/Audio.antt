-- ===== src/Segmenter/Audio.antt =====
-- The audio that crates/speech-capture/src/segmenter.rs collects for a segment.
use kalidokit_rust.Base.{
  ℕ, ◌≡◌, refl, sym, ap, ◌∙◌, Bool, true, false, List, [], ◌∷◌, ◌++◌, append_assoc, append-nil,
}
use kalidokit_rust.Segmenter.{
  SpeechEvent, voice_start, voice_end, transcript_interim, vad_status, VadSegmenter, EtdPredictFn,
  is_speaking,
}
use kalidokit_rust.Segmenter.Invariant.{
  Frame, Outcome, quiet, opened, closed, step, run, step-Outcome,
}

-- The raw samples of a stream, in order.
abbrev pub raw_audio : {Sample : Type 0} → List (Frame Sample) → List Sample
raw_audio [] = []
raw_audio (f ∷ fs) = f.raw_samples ++ raw_audio fs

module _ {Sample Prob : Type 0} where
  abbrev pub audio_of : SpeechEvent Sample Prob → List Sample
  audio_of (voice_end _ audio _ _ _ _ _ _) = audio
  audio_of _ = []

  abbrev pub is_voice_end : SpeechEvent Sample Prob → Bool
  is_voice_end (voice_end _ _ _ _ _ _ _ _) = true
  is_voice_end _ = false

module _ {Sample Prob S : Type 0} (predict_fn : EtdPredictFn Sample Prob S) where
  -- A silent outcome that ends inside a segment was inside it before, and added the frame.
  quiet-audio :
      (s s' : VadSegmenter Sample S) {raw : List Sample} {now : ℕ}
      {es : List (SpeechEvent Sample Prob)}
      → Outcome s s' raw now es
      → es ≡ []
      → is_speaking s' ≡ true
      → (is_speaking s ≡ true) × (s'.audio_buffer ≡ s.audio_buffer ++ raw)
  quiet-audio s s' (quiet _ live) e l = ((live l).0, (live l).2)
  quiet-audio s s' (opened _ _ _ _ _) e l = cc
  quiet-audio s s' (closed _ _ _ _ _ _) e l = cc

  append-eq-nil {ℓ} : {A : Type ℓ} (xs ys : List A) → xs ++ ys ≡ [] → (xs ≡ []) × (ys ≡ [])
  append-eq-nil [] ys h = (refl, h)
  append-eq-nil (x ∷ xs) ys h = cc

  run-audio :
      (s : VadSegmenter Sample S) (fs : List (Frame Sample))
      → (run predict_fn s fs).1 ≡ []
      → is_speaking (run predict_fn s fs).0 ≡ true
      → (is_speaking s ≡ true)
        × ((run predict_fn s fs).0.audio_buffer ≡ s.audio_buffer ++ raw_audio fs)
  unfolding run
  run-audio s [] h l = (l, sym (append-nil s.audio_buffer))
  run-audio s (f ∷ fs) h l =
      let (e, rest) =
        append-eq-nil (step predict_fn s f).1 (run predict_fn (step predict_fn s f).0 fs).1 h in
      let (live, b) = run-audio (step predict_fn s f).0 fs rest l in
      let (live', b') =
        quiet-audio s (step predict_fn s f).0 (step-Outcome predict_fn s f) e live in
      (
        live',
        b
            ∙ ap (λ (x : List Sample). x ++ raw_audio fs) b'
            ∙ append_assoc s.audio_buffer f.raw_samples (raw_audio fs),
      )

  opened-audio :
      (s s' : VadSegmenter Sample S) {raw : List Sample} {now t : ℕ}
      {es : List (SpeechEvent Sample Prob)}
      → Outcome s s' raw now es
      → es ≡ voice_start t ∷ []
      → s'.audio_buffer ≡ raw
  opened-audio s s' (quiet _ _) e = cc
  opened-audio s s' (opened _ _ _ _ b) e = b
  opened-audio s s' (closed _ _ _ _ _ _) e = cc

  closed-audio :
      (s s' : VadSegmenter Sample S) {raw : List Sample} {now : ℕ}
      {es : List (SpeechEvent Sample Prob)} (e : SpeechEvent Sample Prob)
      → Outcome s s' raw now es
      → es ≡ e ∷ []
      → is_voice_end e ≡ true
      → (is_speaking s ≡ true) × (audio_of e ≡ s.audio_buffer ++ raw)
  closed-audio s s' e (quiet _ _) h k = cc
  closed-audio s s' (voice_start _) (opened _ dead _ _ _) h k = cc
  closed-audio s s' (transcript_interim _ _) (opened _ dead _ _ _) h k = cc
  closed-audio s s' (vad_status _ _ _) (opened _ dead _ _ _) h k = cc
  closed-audio s s' (voice_end _ _ _ _ _ _ _ _) (opened _ dead _ _ _) h k = cc
  closed-audio s s' e (closed _ live _ _ _ _) h k = (live, sym (ap audio_of (head_eq h)))
    where
      head_eq : {a b : SpeechEvent Sample Prob} → a ∷ [] ≡ b ∷ [] → a ≡ b
      head_eq q = cc

  -- From the frame that opens a segment to the frame that closes it, with no event between, the
  -- audio of the voice end is the raw samples of every frame, in order, the first and the last
  -- included; a pause in between loses none.
  pub segment_audio :
      (s : VadSegmenter Sample S) (f g : Frame Sample) (fs : List (Frame Sample)) (t : ℕ)
      (e : SpeechEvent Sample Prob)
      → (step predict_fn s f).1 ≡ voice_start t ∷ []
      → (run predict_fn (step predict_fn s f).0 fs).1 ≡ []
      → (step predict_fn (run predict_fn (step predict_fn s f).0 fs).0 g).1 ≡ e ∷ []
      → is_voice_end e ≡ true
      → audio_of e ≡ f.raw_samples ++ raw_audio fs ++ g.raw_samples
  segment_audio s f g fs t e start none_between end k =
      let s1 = (step predict_fn s f).0 in
      let s2 = (run predict_fn s1 fs).0 in
      let s3 = (step predict_fn s2 g).0 in
      let (live, last) = closed-audio s2 s3 e (step-Outcome predict_fn s2 g) end k in
      let (_, middle) = run-audio s1 fs none_between live in
      let first = opened-audio s s1 (step-Outcome predict_fn s f) start in
      last
      ∙ ap (λ (x : List Sample). x ++ g.raw_samples)
          (middle ∙ ap (λ (x : List Sample). x ++ raw_audio fs) first)
