-- ===== src/Speech/Worker/Order.antt =====
-- The order of the events of `vad_worker` (crates/speech-capture/src/lib.rs) from its start.
use kalidokit_rust.Base.{
  ℕ, ◌≡◌, ◌≢◌, refl, sym, ap, ◌∙◌, Bool, Option, none, some, List, All, some-injective,
}
use kalidokit_rust.Segmenter.{
  SpeechEvent, voice_start, transcript_interim, voice_end, vad_status, VadSegmenter, EtdPredictFn,
  is_speaking, accumulated_audio, feed_with_raw, idle,
}
use kalidokit_rust.Segmenter
use kalidokit_rust.Segmenter.Invariant.{Legal, run-Legal}
use kalidokit_rust.Speech.Worker.{Env, SpeechConfig, Worker}
use kalidokit_rust.Speech.Worker.Loop.{Message, reset_flag, new_segmenter, start, run}
use kalidokit_rust.Speech.Worker.Passes.{erase}
use kalidokit_rust.Speech.Worker.Passes.{erase}
use kalidokit_rust.Speech.Worker.Stream.{heard}
use kalidokit_rust.Speech.Worker.Segments.{run-Passed}
use kalidokit_rust.Segmenter.Invariant.{run-Legal, Legal}
use kalidokit_rust.Base.{some-injective}

Legal-at :
    {Sample Prob : Type 0} {m m' : ℕ} {es es' : List (SpeechEvent Sample Prob)}
    → m ≡ m'
    → es ≡ es'
    → Legal m none es
    → Legal m' none es'
Legal-at e f h = rw (← e, ← f) h

module _ {Sample Prob V N S W : Type 0} (env : Env Sample Prob V N S W)
    (config : SpeechConfig) where
  new_segmenter-idle :
      (detector : Option S)
      → ((new_segmenter env config detector).state ≡ idle)
        × ((new_segmenter env config detector).min_speech_ms ≡ config.min_speech_duration_ms)
  unfolding new_segmenter Segmenter.new Segmenter.set_etd_predict
  new_segmenter-idle none = (refl, refl)
  new_segmenter-idle (some d) = (refl, refl)

  start-seg :
      (vad : Option V) (detector : Option S) (engine : Option W) (denoise : Bool)
      (w : Worker Sample V N S W)
      → start env config vad detector engine denoise ≡ some w
      → new_segmenter env config detector ≡ w.seg
  unfolding start
  start-seg none detector engine denoise w h = cc
  start-seg (some v) detector engine denoise w h =
      ap (λ (x : Worker Sample V N S W). x.seg) (some-injective _ _ h)

  -- A worker from its start, over any messages but resets: each end of a segment that it hands to the
  -- callback follows the start of that segment, with no other start or end between; its duration is
  -- the time since then and not below the minimum of the configuration; and it says whether the
  -- turn has ended.
  pub run-Legal_events :
      (vad : Option V) (detector : Option S) (engine : Option W) (denoise : Bool)
      (w : Worker Sample V N S W) (ms : List (Message Sample))
      → start env config vad detector engine denoise ≡ some w
      → All (λ m. m ≢ reset_flag) ms
      → Legal config.min_speech_duration_ms none (erase (run env config w ms).1)
  run-Legal_events vad detector engine denoise w ms h k =
      let p = run-Passed env config w ms k in
      let seg = start-seg vad detector engine denoise w h in
      let (at_rest, least) = new_segmenter-idle detector in
      let legal =
        run-Legal env.predict w.seg (heard env w.vad_instance p.chunks).1
          (ap (λ (s : VadSegmenter Sample S). s.state) (sym seg) ∙ at_rest) in
      let minimum : w.seg.min_speech_ms ≡ config.min_speech_duration_ms =
        ap (λ (s : VadSegmenter Sample S). s.min_speech_ms) (sym seg) ∙ least in
      Legal-at minimum
        (ap (λ (r : VadSegmenter Sample S × List (SpeechEvent Sample Prob)). r.1) p.same_run) legal
