-- ===== src/Speech/Worker/Passes.antt =====
-- The events of `vad_worker` (crates/speech-capture/src/lib.rs) against those of the segmenter.
use kalidokit_rust.Base.{
  ◌-◌, ◌≡◌, refl, sym, ap, ◌∙◌, Bool, ◌&&◌, Option, none, some, List, [], ◌∷◌, ◌++◌, append_assoc,
  append-nil, length, leb, ltb, if_elim,
}
use kalidokit_rust.Base.Time.{Duration, from_millis}
use kalidokit_rust.Base.Result.{Result, ok, err}
use kalidokit_rust.Base.Text.{Text}
use kalidokit_rust.Base.{String}
use kalidokit_rust.Segmenter.{
  SpeechEvent, voice_start, transcript_interim, voice_end, vad_status, VadSegmenter, EtdPredictFn,
  is_speaking, accumulated_audio,
}
use kalidokit_rust.Segmenter.Invariant.{
  Frame, Outcome, quiet, opened, closed, step, step-Outcome, Legal, run-Legal,
}
use kalidokit_rust.Segmenter.Invariant
use kalidokit_rust.Speech.Worker.{
  SttMode, disabled, batch, streaming, Env, SpeechConfig, Worker, interim_of, transcribe_interim,
  interim, fall_back, skips, transcribe_end, emit_end, emit, emit_all,
}

-- The starts and ends of segments in a stream of events, without what the transcription added.
abbrev pub erase :
    {Sample Prob : Type 0} → List (SpeechEvent Sample Prob) → List (SpeechEvent Sample Prob)
erase [] = []
erase (voice_start t ∷ es) = voice_start t ∷ erase es
erase (transcript_interim t text ∷ es) = erase es
erase (voice_end t audio duration transcript whisper perceived turn p ∷ es) =
    voice_end t audio duration none 0 0 turn p ∷ erase es
erase (vad_status t p v ∷ es) = erase es

pub erase-append :
    {Sample Prob : Type 0} (xs ys : List (SpeechEvent Sample Prob))
    → erase (xs ++ ys) ≡ erase xs ++ erase ys
erase-append [] ys = refl
erase-append (voice_start t ∷ es) ys = ap (◌∷◌ (voice_start t)) (erase-append es ys)
erase-append (transcript_interim t text ∷ es) ys = erase-append es ys
erase-append (voice_end t a d tr w l e p ∷ es) ys =
    ap (◌∷◌ (voice_end t a d none 0 0 e p)) (erase-append es ys)
erase-append (vad_status t p v ∷ es) ys = erase-append es ys

module _ {Sample Prob S : Type 0} (predict : EtdPredictFn Sample Prob S) where
  pub run-append :
      (s : VadSegmenter Sample S) (fs gs : List (Frame Sample))
      → let first = Invariant.run predict s fs in
        let second = Invariant.run predict first.0 gs in
        Invariant.run predict s (fs ++ gs) ≡ (second.0, first.1 ++ second.1)
  unfolding Invariant.run
  run-append s [] gs = refl
  run-append s (f ∷ fs) gs =
      let t = step predict s f in
      let e = run-append t.0 fs gs in
      rw e (
        ap
          (λ (l : List (SpeechEvent Sample Prob)).
            ((Invariant.run predict (Invariant.run predict t.0 fs).0 gs).0, l))
          (sym (append_assoc t.1 _ _)))

module _ {Sample Prob V N S W : Type 0} (env : Env Sample Prob V N S W)
    (config : SpeechConfig) where
  -- A step that leaves the segmenter alone and tells nothing of segments but `es`.
  abbrev pub Tells :
      Worker Sample V N S W
      → List (SpeechEvent Sample Prob)
      → Worker Sample V N S W × List (SpeechEvent Sample Prob)
      → Type 0
  Tells w es r = (r.0.seg ≡ w.seg) × (erase r.1 ≡ es)

  interim_of-erase :
      (t : Duration) (answer : Result String Text)
      → Path (List (SpeechEvent Sample Prob)) (erase (interim_of t answer)) []
  interim_of-erase t (err e) = refl
  interim_of-erase t (ok []) = refl
  interim_of-erase t (ok (c ∷ text)) = refl

  pub interim-Tells :
      (mode : SttMode) (engine : Option W) (w : Worker Sample V N S W) (t : Duration)
      → Tells w [] (interim env config mode engine w t)
  unfolding interim transcribe_interim
  interim-Tells disabled engine w t = (refl, refl)
  interim-Tells batch engine w t = (refl, refl)
  interim-Tells (streaming ms) none w t = (refl, refl)
  interim-Tells (streaming ms) (some engine) w t =
      if_elim (Tells w []) (is_speaking w.seg && leb (from_millis ms) _) _ _
        (λ _.
          if_elim (Tells w []) (ltb 0 (length (accumulated_audio w.seg))) _ _
            (λ _. (refl, interim_of-erase t _)) (λ _. (refl, refl)))
        (λ _. (refl, refl))

  transcribe_end-Tells :
      (engine : W) (w : Worker Sample V N S W) (t : Duration) (audio : List Sample) (d : Duration)
      (turn : Option Bool) (p : Option Prob)
      → Tells w
          (voice_end t audio d none 0 0 turn p ∷ [])
          (transcribe_end env config engine w t audio d turn p)
  unfolding transcribe_end
  transcribe_end-Tells engine w t audio d turn p =
      if_elim (Tells w (voice_end t audio d none 0 0 turn p ∷ [])) (skips env config audio d) _ _
        (λ _. (refl, refl)) (λ _. (refl, refl))

  emit_end-Tells :
      (mode : SttMode) (engine : Option W) (w : Worker Sample V N S W) (t : Duration)
      (audio : List Sample) (d : Duration) (turn : Option Bool) (p : Option Prob)
      → Tells w
          (voice_end t audio d none 0 0 turn p ∷ [])
          (emit_end env config mode engine w (voice_end t audio d none 0 0 turn p) t audio d turn p)
  unfolding emit_end
  emit_end-Tells mode none w t audio d turn p = (refl, refl)
  emit_end-Tells disabled (some engine) w t audio d turn p = (refl, refl)
  emit_end-Tells batch (some engine) w t audio d turn p =
      transcribe_end-Tells engine w t audio d turn p
  emit_end-Tells (streaming ms) (some engine) w t audio d turn p =
      transcribe_end-Tells engine w t audio d turn p

  -- The segmenter's own events, which say whether the turn has ended.
  pub emit_all-Tells :
      (s s' : VadSegmenter Sample S) (raw : List Sample) (now : Duration)
      (es : List (SpeechEvent Sample Prob)) (w : Worker Sample V N S W)
      → Outcome s s' raw now es
      → Tells w es (emit_all env config w es)
  unfolding emit_all emit fall_back
  emit_all-Tells s s' raw now _ w (quiet _ _) = (refl, refl)
  emit_all-Tells s s' raw now _ w (opened _ _ _ _ _) = (refl, refl)
  emit_all-Tells s s' raw now _ w (closed _ _ _ _ turn p) =
      let audio = s.audio_buffer ++ raw in
      let since = now - s.voice_start_at in
      let event : SpeechEvent Sample Prob = voice_end now audio since none 0 0 (some turn) p in
      let r =
        emit_end env config config.stt_mode w.whisper_engine w event now audio since (some turn)
          p in
      let (same, told) =
        emit_end-Tells config.stt_mode w.whisper_engine w now audio since (some turn) p in
      (same, ap (λ (l : List (SpeechEvent Sample Prob)). erase l) (append-nil r.1) ∙ told)
