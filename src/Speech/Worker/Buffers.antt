-- ===== src/Speech/Worker/Buffers.antt =====
-- The two buffers of `vad_worker` (crates/speech-capture/src/lib.rs) between frames.
use kalidokit_rust.Base.{
  ℕ, zero, suc, ◌≤◌, ◌<◌, ◌≡◌, refl, sym, ap, ◌∙◌, Bool, false, ◌&&◌, Option, none, some, List, [],
  ◌∷◌, ◌++◌, arith, ◌⊎◌, inl, inr, length, length-drop, take, drop, leb, leb→lt, ltb, if_elim,
  Option-cases, some-injective, String, Bool-cases,
}
use kalidokit_rust.Base.Time.{Duration, from_millis}
use kalidokit_rust.Base.Result.{Result, ok, err}
use kalidokit_rust.Segmenter.{
  SpeechEvent, voice_start, transcript_interim, voice_end, vad_status, is_speaking,
  accumulated_audio, feed_with_raw,
}
use kalidokit_rust.Speech.Worker.{
  SttMode, disabled, batch, streaming, HopSize, samples160, samples256, VadResult, Env,
  SpeechConfig, Worker, transcribe_interim, interim, fall_back, skips, transcribe_end, emit_end,
  emit, emit_all,
}
use kalidokit_rust.Speech.Worker.Loop.{
  Message, reset_flag, timed_out, received, as_usize, start, reset, judged, on_chunk, drain, extend,
  on_frame, on_message, run,
}

pub as_usize_positive : (hop : HopSize) → 0 < as_usize hop
unfolding as_usize
as_usize_positive samples160 = omega arith
as_usize_positive samples256 = omega arith

module _ {Sample Prob V N S W : Type 0} (env : Env Sample Prob V N S W)
    (config : SpeechConfig) where
  -- The buffers, the noise suppression and the voice detector.
  abbrev pub Same :
      Worker Sample V N S W → Worker Sample V N S W × List (SpeechEvent Sample Prob) → Type 0
  Same w r =
      (r.0.reframe_buf ≡ w.reframe_buf)
      × (r.0.raw_reframe_buf ≡ w.raw_reframe_buf)
      × (r.0.denoiser ≡ w.denoiser)
      × (r.0.vad_instance ≡ w.vad_instance)

  interim-Same :
      (mode : SttMode) (engine : Option W) (w : Worker Sample V N S W) (t : Duration)
      → Same w (interim env config mode engine w t)
  unfolding interim transcribe_interim
  interim-Same disabled engine w t = (refl, refl, refl, refl)
  interim-Same batch engine w t = (refl, refl, refl, refl)
  interim-Same (streaming ms) none w t = (refl, refl, refl, refl)
  interim-Same (streaming ms) (some engine) w t =
      if_elim (Same w) (is_speaking w.seg && leb (from_millis ms) _) _ _
        (λ _.
          if_elim (Same w) (ltb 0 (length (accumulated_audio w.seg))) _ _
            (λ _. (refl, refl, refl, refl)) (λ _. (refl, refl, refl, refl)))
        (λ _. (refl, refl, refl, refl))

  transcribe_end-Same :
      (engine : W) (w : Worker Sample V N S W) (t : Duration) (audio : List Sample) (d : Duration)
      (turn : Option Bool) (p : Option Prob)
      → Same w (transcribe_end env config engine w t audio d turn p)
  unfolding transcribe_end
  transcribe_end-Same engine w t audio d turn p =
      if_elim (Same w) (skips env config audio d) _ _ (λ _. (refl, refl, refl, refl))
        (λ _. (refl, refl, refl, refl))

  emit_end-Same :
      (mode : SttMode) (engine : Option W) (w : Worker Sample V N S W)
      (event : SpeechEvent Sample Prob) (t : Duration) (audio : List Sample) (d : Duration)
      (turn : Option Bool) (p : Option Prob)
      → Same w (emit_end env config mode engine w event t audio d turn p)
  unfolding emit_end
  emit_end-Same mode none w event t audio d turn p = (refl, refl, refl, refl)
  emit_end-Same disabled (some engine) w event t audio d turn p = (refl, refl, refl, refl)
  emit_end-Same batch (some engine) w event t audio d turn p =
      transcribe_end-Same engine w t audio d turn p
  emit_end-Same (streaming ms) (some engine) w event t audio d turn p =
      transcribe_end-Same engine w t audio d turn p

  emit-Same :
      (w : Worker Sample V N S W) (e : SpeechEvent Sample Prob) → Same w (emit env config w e)
  unfolding emit
  emit-Same w (voice_start t) = (refl, refl, refl, refl)
  emit-Same w (transcript_interim t text) = (refl, refl, refl, refl)
  emit-Same w (vad_status t p v) = (refl, refl, refl, refl)
  emit-Same w (voice_end t audio d tr wl pl turn p) =
      let (seg, turn', p') = fall_back env config w.seg audio turn p in
      emit_end-Same config.stt_mode w.whisper_engine (record w { seg = seg })
        (voice_end t audio d tr wl pl turn' p') t audio d turn' p'

  emit_all-Same :
      (w : Worker Sample V N S W) (es : List (SpeechEvent Sample Prob))
      → Same w (emit_all env config w es)
  unfolding emit_all
  emit_all-Same w [] = (refl, refl, refl, refl)
  emit_all-Same w (e ∷ es) =
      let (a, b, c, d) = emit-Same w e in
      let (a', b', c', d') = emit_all-Same (emit env config w e).0 es in
      (a' ∙ a, b' ∙ b, c' ∙ c, d' ∙ d)

  pub judged-Same :
      (w : Worker Sample V N S W) (samples raw : List Sample) (t : Duration)
      (answer : Result String (VadResult Prob))
      → Same w (judged env config w samples raw t answer)
  unfolding judged
  judged-Same w samples raw t (err e) = (refl, refl, refl, refl)
  judged-Same w samples raw t (ok result) =
      let i = interim env config config.stt_mode w.whisper_engine w t in
      let (a, b, c, d) = interim-Same config.stt_mode w.whisper_engine w t in
      let fed = feed_with_raw env.predict i.0.seg result.is_voice samples raw t in
      let (a', b', c', d') = emit_all-Same (record i.0 { seg = fed.0 }) fed.1 in
      (a' ∙ a, b' ∙ b, c' ∙ c, d' ∙ d)

  -- Too little for a chunk is left in one buffer, and, without noise suppression, the same in both.
  pub record IsDrained (w : Worker Sample V N S W) : Type 0 where
    pub short :
        (length w.reframe_buf < as_usize config.hop_size)
        ⊎ (length w.raw_reframe_buf < as_usize config.hop_size)
    pub in_step : w.denoiser ≡ none → w.reframe_buf ≡ w.raw_reframe_buf

  not_both : (hop a b : ℕ) → (leb hop a && leb hop b) ≡ false → (a < hop) ⊎ (b < hop)
  not_both hop a b h = elim (Bool-cases (leb hop a)) [
    | inl e ↦ inr (leb→lt hop b (rw e at h))
    | inr e ↦ inl (leb→lt hop a e)
  ]

  drain-IsDrained :
      (fuel : ℕ) (w : Worker Sample V N S W) (t : Duration)
      → length w.reframe_buf ≤ fuel
      → (w.denoiser ≡ none → w.reframe_buf ≡ w.raw_reframe_buf)
      → IsDrained (drain env config fuel w t).0
  unfolding drain on_chunk
  drain-IsDrained zero w t h same = record {
    short = inl (omega (arith, as_usize_positive config.hop_size));
    in_step = same;
  }
  drain-IsDrained (suc fuel) w t h same =
      let hop = as_usize config.hop_size in
      let taken = record w {
        reframe_buf = drop hop w.reframe_buf;
        raw_reframe_buf = drop hop w.raw_reframe_buf;
      } in
      let v = env.process w.vad_instance (take hop w.reframe_buf) in
      let (a, b, c, d) =
        judged-Same (record taken { vad_instance = v.0 }) (take hop w.reframe_buf)
          (take hop w.raw_reframe_buf) t v.1 in
      let next =
        on_chunk env config taken (take hop w.reframe_buf) (take hop w.raw_reframe_buf) t in
      if_elim (λ (r : Worker Sample V N S W × List (SpeechEvent Sample Prob)). IsDrained r.0)
        (leb hop (length w.reframe_buf) && leb hop (length w.raw_reframe_buf)) _ _
        (λ full.
          drain-IsDrained fuel next.0 t
            (omega (
              arith,
              ap length a,
              length-drop hop w.reframe_buf,
              as_usize_positive config.hop_size,
            ))
            (λ off. a ∙ ap (drop hop) (same (sym c ∙ off)) ∙ sym b))
        (λ e. record {
          short = not_both hop (length w.reframe_buf) (length w.raw_reframe_buf) e;
          in_step = same;
        })

  extend-in_step :
      (w : Worker Sample V N S W) (samples : List Sample)
      → (w.denoiser ≡ none → w.reframe_buf ≡ w.raw_reframe_buf)
      → let e = extend env config w samples in e.denoiser ≡ none → e.reframe_buf ≡ e.raw_reframe_buf
  unfolding extend
  extend-in_step w samples same = elim (Option-cases w.denoiser) [
    | inl e ↦ rw (e, extend) (λ _. ap (λ (l : List Sample). l ++ samples) (same e))
    | inr (d, e) ↦ rw (e, extend) (λ off. cc)
  ]

  on_message-IsDrained :
      (w : Worker Sample V N S W) (m : Message Sample)
      → IsDrained w
      → IsDrained (on_message env config w m).0
  unfolding on_message reset on_frame
  on_message-IsDrained w reset_flag h = record {
    short = inl (as_usize_positive config.hop_size);
    in_step = λ _. refl;
  }
  on_message-IsDrained w timed_out h = h
  on_message-IsDrained w (received frame) h =
      let extended = extend env config w frame.samples in
      drain-IsDrained (length extended.reframe_buf) extended frame.timestamp (omega arith)
        (extend-in_step w frame.samples h.in_step)

  run-IsDrained_from :
      (w : Worker Sample V N S W) (ms : List (Message Sample))
      → IsDrained w
      → IsDrained (run env config w ms).0
  unfolding run
  run-IsDrained_from w [] h = h
  run-IsDrained_from w (m ∷ ms) h =
      run-IsDrained_from (on_message env config w m).0 ms (on_message-IsDrained w m h)

  start-IsDrained :
      (vad : Option V) (detector : Option S) (engine : Option W) (denoise : Bool)
      (w : Worker Sample V N S W)
      → start env config vad detector engine denoise ≡ some w
      → IsDrained w
  unfolding start
  start-IsDrained none detector engine denoise w h = cc
  start-IsDrained (some v) detector engine denoise w h =
      rw (← some-injective _ _ h)
        (record { short = inl (as_usize_positive config.hop_size); in_step = λ _. refl })

  -- A worker from its start, after any messages, resets among them: one of the two buffers holds less
  -- than a hop, and without noise suppression both hold the same.
  pub run-IsDrained :
      (vad : Option V) (detector : Option S) (engine : Option W) (denoise : Bool)
      (w : Worker Sample V N S W) (ms : List (Message Sample))
      → start env config vad detector engine denoise ≡ some w
      → IsDrained (run env config w ms).0
  run-IsDrained vad detector engine denoise w ms h =
      run-IsDrained_from w ms (start-IsDrained vad detector engine denoise w h)
