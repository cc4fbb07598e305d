-- ===== src/Speech/Worker/Segments.antt =====
-- `vad_worker` (crates/speech-capture/src/lib.rs) against the segmenter, run on the chunks of the
-- frames.
use kalidokit_rust.Base.{
  ◌≤◌, append_assoc, ℕ, zero, suc, ◌≡◌, ◌≢◌, refl, sym, ap, ◌∙◌, Bool, true, false, ◌&&◌, List, [],
  ◌∷◌, ◌++◌, append-nil, All, All-append, length, take, drop, leb, leb→le, if_elim, Option-cases,
  length-take_le, inl, inr,
}
use kalidokit_rust.Base.Time.{Duration}
use kalidokit_rust.Base.Result.{Result, ok, err}
use kalidokit_rust.Base.{String}
use kalidokit_rust.Segmenter.{SpeechEvent, VadSegmenter, feed_with_raw}
use kalidokit_rust.Segmenter.Invariant.{
  Frame, Outcome, quiet, opened, closed, step, step-Outcome, Legal, run-Legal,
}
use kalidokit_rust.Segmenter.Invariant
use kalidokit_rust.Speech.Worker.{VadResult, Env, SpeechConfig, Worker, interim, emit_all}
use kalidokit_rust.Speech.Worker.Loop.{
  AudioFrame, Message, reset_flag, timed_out, received, as_usize, status, judged, on_chunk, drain,
  extend, on_frame, on_message, run,
}
use kalidokit_rust.Speech.Worker.Buffers.{judged-Same}
use kalidokit_rust.Speech.Worker.Stream.{
  Chunk, clean_of, raw_of, samples_in, all_samples, IsFrom, Stamped, quieted, quieted_in,
  all_quieted, told, heard,
}
use kalidokit_rust.Speech.Worker.Passes.{erase, erase-append, interim-Tells, emit_all-Tells}
use kalidokit_rust.Speech.Worker.Stretch.{Passed, Passed-none, Passed-noise, Passed-append}

pair_path : {A B : Type 0} {a a' : A} {b b' : B} → a ≡ a' → b ≡ b' → Path (A × B) (a, b) (a', b')
pair_path p q = rw (p, q) refl

both_true : (a b : Bool) → (a && b) ≡ true → (a ≡ true) × (b ≡ true)
both_true true true h = (refl, refl)
both_true true false h = cc
both_true false b h = cc

take-drop : {A : Type 0} (n : ℕ) (xs : List A) → take n xs ++ drop n xs ≡ xs
take-drop zero xs = refl
take-drop (suc n) [] = refl
take-drop (suc n) (x ∷ xs) = ap (◌∷◌ x) (take-drop n xs)

module _ {Sample Prob V N S W : Type 0} (env : Env Sample Prob V N S W)
    (config : SpeechConfig) where
  status-erase : (t : Duration) (result : VadResult Prob) → erase (status env config t result) ≡ []
  status-erase t result =
      if_elim (λ (l : List (SpeechEvent Sample Prob)). erase l ≡ []) config.emit_vad_status _ _
        (λ _. refl) (λ _. refl)

  judged-run :
      (w : Worker Sample V N S W) (samples raw : List Sample) (t : Duration)
      (answer : Result String (VadResult Prob))
      → let c : Chunk Sample = record { samples = samples; raw_samples = raw; timestamp = t } in
        let r = judged env config w samples raw t answer in
        Invariant.run env.predict w.seg (told env c answer []) ≡ (r.0.seg, erase r.1)
  unfolding judged Invariant.run step
  judged-run w samples raw t (err e) = refl
  judged-run w samples raw t (ok result) =
      let i = interim env config config.stt_mode w.whisper_engine w t in
      let (kept, quiet_part) = interim-Tells env config config.stt_mode w.whisper_engine w t in
      let f : Frame Sample = record {
        is_voice = result.is_voice;
        samples = samples;
        raw_samples = raw;
        timestamp = t;
      } in
      let fed = feed_with_raw env.predict i.0.seg result.is_voice samples raw t in
      let e = emit_all env config (record i.0 { seg = fed.0 }) fed.1 in
      let (seg_same, announced) =
        emit_all-Tells env config i.0.seg fed.0 raw t fed.1 (record i.0 { seg = fed.0 })
          (step-Outcome env.predict i.0.seg f) in
      let shown : erase (status env config t result ++ (i.1 ++ e.1)) ≡ fed.1 =
        erase-append (status env config t result) (i.1 ++ e.1)
        ∙ rw (status-erase t result) (erase-append i.1 e.1 ∙ rw (quiet_part, announced) refl) in
      ap (λ (s : VadSegmenter Sample S). Invariant.run env.predict s (f ∷ [])) (sym kept)
      ∙ pair_path (sym seg_same) (append-nil fed.1 ∙ sym shown)

  IsAt : Duration → Chunk Sample → Type 0
  IsAt t c = c.timestamp ≡ t

  -- A round of the loop over chunks: the chunk leaves the buffers.
  round-Passed :
      (w : Worker Sample V N S W) (t : Duration)
      → let hop = as_usize config.hop_size in
        let taken = record w {
          reframe_buf = drop hop w.reframe_buf;
          raw_reframe_buf = drop hop w.raw_reframe_buf;
        } in
        hop ≤ length w.reframe_buf
        → hop ≤ length w.raw_reframe_buf
        → Passed env config w w.denoiser [] []
            (All (IsAt t))
            (on_chunk env config taken (take hop w.reframe_buf) (take hop w.raw_reframe_buf) t)
  unfolding on_chunk heard clean_of raw_of IsAt
  round-Passed w t enough enough_raw =
      let hop = as_usize config.hop_size in
      let samples = take hop w.reframe_buf in
      let raw = take hop w.raw_reframe_buf in
      let v = env.process w.vad_instance samples in
      let heard_by = record w {
        reframe_buf = drop hop w.reframe_buf;
        raw_reframe_buf = drop hop w.raw_reframe_buf;
        vad_instance = v.0;
      } in
      let (a, b, c, d) = judged-Same env config heard_by samples raw t v.1 in
      record {
        chunks = record { samples = samples; raw_samples = raw; timestamp = t } ∷ [];
        timed = (refl, tt);
        sized = (
          (
            length-take_le hop w.reframe_buf enough,
            length-take_le hop w.raw_reframe_buf enough_raw,
          ),
          tt,
        );
        clean_kept =
            append_assoc samples [] _
            ∙ ap (◌++◌ samples) a
            ∙ take-drop hop w.reframe_buf
            ∙ sym (append-nil w.reframe_buf);
        raw_kept =
            append_assoc raw [] _
            ∙ ap (◌++◌ raw) b
            ∙ take-drop hop w.raw_reframe_buf
            ∙ sym (append-nil w.raw_reframe_buf);
        noise_kept = c;
        all_heard = sym d;
        same_run = judged-run heard_by samples raw t v.1;
      }

  drain-Passed :
      (fuel : ℕ) (w : Worker Sample V N S W) (t : Duration)
      → Passed env config w w.denoiser [] [] (All (IsAt t)) (drain env config fuel w t)
  unfolding drain
  drain-Passed zero w t = Passed-none env config w (All (IsAt t)) tt
  drain-Passed (suc fuel) w t =
      let hop = as_usize config.hop_size in
      let taken = record w {
        reframe_buf = drop hop w.reframe_buf;
        raw_reframe_buf = drop hop w.raw_reframe_buf;
      } in
      let c = on_chunk env config taken (take hop w.reframe_buf) (take hop w.raw_reframe_buf) t in
      let Goal = Passed env config w w.denoiser [] [] (All (IsAt t)) in
      if_elim Goal (leb hop (length w.reframe_buf) && leb hop (length w.raw_reframe_buf)) _ _
        (λ full.
          let (enough, enough_raw) = both_true _ _ full in
          let first = round-Passed w t (leb→le _ _ enough) (leb→le _ _ enough_raw) in
          let rest = drain env config fuel c.0 t in
          Passed-append env config w c.0 rest.0 w.denoiser w.denoiser [] [] [] [] (All (IsAt t))
            (All (IsAt t)) (All (IsAt t)) c.1 rest.1 (All-append (IsAt t)) first
            (Passed-noise env config c.0 c.0.denoiser w.denoiser (All (IsAt t)) rest
              first.noise_kept (drain-Passed fuel c.0 t)))
        (λ _. Passed-none env config w (All (IsAt t)) tt)

  -- A frame in both buffers.
  extend-adds :
      (w : Worker Sample V N S W) (samples : List Sample)
      → let e = extend env config w samples in
        let q = quieted env w.denoiser samples in
        (e.reframe_buf ≡ w.reframe_buf ++ q.1)
        × (e.raw_reframe_buf ≡ w.raw_reframe_buf ++ samples)
        × (e.denoiser ≡ q.0)
        × (e.seg ≡ w.seg)
        × (e.vad_instance ≡ w.vad_instance)
  unfolding extend quieted
  extend-adds w samples = elim (Option-cases w.denoiser) [
    | inl e ↦ rw (e, extend, quieted) (refl, refl, e, refl, refl)
    | inr (d, e) ↦ rw (e, extend, quieted) (refl, refl, refl, refl, refl)
  ]

  on_frame-Passed :
      (w : Worker Sample V N S W) (frame : AudioFrame Sample)
      → let q = quieted env w.denoiser frame.samples in
        Passed env config w q.0 q.1 frame.samples
          (All (IsAt frame.timestamp))
          (on_frame env config w frame)
  unfolding on_frame
  on_frame-Passed w frame =
      let extended = extend env config w frame.samples in
      let (clean, raw, noise, seg, vad) = extend-adds w frame.samples in
      let p = drain-Passed (length extended.reframe_buf) extended frame.timestamp in
      record {
        chunks = p.chunks;
        timed = p.timed;
        sized = p.sized;
        clean_kept = p.clean_kept ∙ append-nil extended.reframe_buf ∙ clean;
        raw_kept = p.raw_kept ∙ append-nil extended.raw_reframe_buf ∙ raw;
        noise_kept = p.noise_kept ∙ noise;
        all_heard = ap (λ (v : V). (heard env v p.chunks).0) (sym vad) ∙ p.all_heard;
        same_run =
            ap (λ (v : V). Invariant.run env.predict w.seg (heard env v p.chunks).1) (sym vad)
            ∙ ap
                (λ (s : VadSegmenter Sample S).
                  Invariant.run env.predict s (heard env extended.vad_instance p.chunks).1)
                (sym seg)
            ∙ p.same_run;
      }

  on_message-Passed :
      (w : Worker Sample V N S W) (m : Message Sample)
      → m ≢ reset_flag
      → let q = quieted_in env w.denoiser m in
        Passed env config w q.0 q.1 (samples_in m) (All (IsFrom m)) (on_message env config w m)
  unfolding on_message quieted_in IsAt
  on_message-Passed w reset_flag h = absurd (h refl)
  on_message-Passed w timed_out h = Passed-none env config w (All (IsFrom timed_out)) tt
  on_message-Passed w (received frame) h = on_frame-Passed w frame

  -- The worker over any messages but resets, whatever the voice detector, the noise suppression and
  -- the transcription answer. There are chunks, each of a hop of samples and a hop of raw samples, so
  -- many in order for each message, with its time. Their raw samples and then what the raw buffer
  -- holds at the end are what it held at first and then the samples of all messages; their samples
  -- and then the other buffer are what that held and then the same samples after the noise
  -- suppression, message by message. The detector hears each chunk once, in order. The segmenter, run
  -- on the chunks that it answers on, with its answers, ends as the worker's does, and gives the
  -- starts and ends of segments that the worker hands to the callback, in that order, but for what
  -- the transcription adds to them.
  pub run-Passed :
      (w : Worker Sample V N S W) (ms : List (Message Sample))
      → All (λ m. m ≢ reset_flag) ms
      → let (noise, clean) = all_quieted env w.denoiser ms in
        Passed env config w noise clean (all_samples ms) (Stamped ms) (run env config w ms)
  unfolding run all_quieted all_samples Stamped
  run-Passed w [] h = Passed-none env config w (Stamped []) refl
  run-Passed w (m ∷ ms) h =
      let r = on_message env config w m in
      let q = quieted_in env w.denoiser m in
      let p = on_message-Passed w m h.0 in
      let later : Passed env config r.0 (all_quieted env q.0 ms).0 (all_quieted env q.0 ms).1
          (all_samples ms) (Stamped ms) (run env config r.0 ms) =
        rw (← p.noise_kept) (run-Passed r.0 ms h.1) in
      Passed-append env config w r.0 (run env config r.0 ms).0 q.0 (all_quieted env q.0 ms).0 q.1
        (all_quieted env q.0 ms).1 (samples_in m) (all_samples ms) (All (IsFrom m)) (Stamped ms)
        (Stamped (m ∷ ms)) r.1 (run env config r.0 ms).1 (λ cs ds a b. (cs, ds, refl, a, b)) p later
