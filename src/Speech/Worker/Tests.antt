-- ===== src/Speech/Worker/Tests.antt =====
-- A worker whose voice detector takes a chunk that begins with 1 to be voice.
use kalidokit_rust.Base.{
  ℕ, zero, suc, ◌+◌, ◌≡◌, ◌≢◌, refl, Bool, true, false, some, none, [], ◌∷◌, ◌++◌, List, ◌==◌, All,
}
use kalidokit_rust.Base.Result.{ok}
use kalidokit_rust.Segmenter.{SpeechEvent, voice_start, voice_end, dispatch, feed_with_raw}
use kalidokit_rust.Segmenter
use kalidokit_rust.Segmenter.Invariant.{Legal}
use kalidokit_rust.Speech.Worker.{
  streaming, samples160, Env, SpeechConfig, Worker, interim, emit, emit_all,
}
use kalidokit_rust.Speech.Worker.Loop.{
  Message, received, timed_out, reset_flag, start, new_segmenter, run, on_message, on_frame, extend,
  drain, on_chunk, judged, as_usize,
}
use kalidokit_rust.Speech.Worker.Passes.{erase}
use kalidokit_rust.Speech.Worker.Stream.{all_quieted, quieted_in, quieted, all_samples, Stamped}
use kalidokit_rust.Speech.Worker.Segments.{run-Passed}
use kalidokit_rust.Speech.Worker.Stretch.{Passed}
use kalidokit_rust.Speech.Worker.Order.{run-Legal_events}
use kalidokit_rust.Speech.Worker.Buffers.{IsDrained, run-IsDrained}

abbrev first_is_one : List ℕ → Bool
first_is_one [] = false
first_is_one (s ∷ samples) = s == 1

abbrev env : Env ℕ ℕ ℕ ℕ ℕ ℕ
env = record {
  process = λ v samples. (v + 1, ok (record { probability = 50; is_voice = first_is_one samples }));
  new_denoiser = 0;
  denoise = λ n samples. (n, samples);
  predict = λ calls audio. (some (record { prediction = true; probability = 70 }), calls + 1);
  transcribe = λ w audio. (w, ok (104 ∷ []));
  transcribe_with_prob =
      λ w audio. (w, record { result = ok (104 ∷ []); stt_elapsed = 5000000; wall_now = 0 });
  is_speech = λ audio. true;
  min_audio_ms = 800;
}

abbrev config : SpeechConfig
config = record {
  hop_size = samples160;
  min_speech_duration_ms = 200;
  silence_timeout_ms = 500;
  emit_vad_status = false;
  stt_mode = streaming 1000;
}

abbrev repeat : ℕ → List ℕ → List ℕ
repeat zero samples = []
repeat (suc n) samples = samples ++ repeat n samples

abbrev worker : Worker ℕ ℕ ℕ ℕ ℕ
worker = record {
  vad_instance = 0;
  seg = record {
    state = Segmenter.idle;
    min_speech_ms = 200;
    silence_timeout_ms = 500;
    extended_silence_timeout_ms = 1500;
    audio_buffer = [];
    voice_start_at = 0;
    etd_predict = some 0;
  };
  whisper_engine = some 0;
  last_interim_time = 0;
  denoiser = none;
  reframe_buf = [];
  raw_reframe_buf = [];
}

started : start env config (some 0) (some 0) (some 0) false ≡ some worker
unfolding start new_segmenter Segmenter.new Segmenter.set_etd_predict
started = refl

-- Voice for a hop and a half, then silence.
abbrev messages : List (Message ℕ)
messages =
    received (record { samples = repeat 240 (1 ∷ []); timestamp = 100000000 })
    ∷ timed_out
    ∷ received (record { samples = repeat 240 (0 ∷ []); timestamp = 400000000 })
    ∷ []

voice_starts :
    (run env config worker
      (received (record { samples = repeat 240 (1 ∷ []); timestamp = 7 }) ∷ [])).1
    ≡ voice_start 7 ∷ []
unfolding run on_message on_frame extend drain on_chunk judged as_usize interim feed_with_raw
    dispatch emit_all emit
voice_starts = refl

no_resets : All (λ (m : Message ℕ). m ≢ reset_flag) messages
no_resets = ((λ e. cc), ((λ e. cc), ((λ e. cc), tt)))

run-Passed_example :
    Passed env config worker none
      (all_quieted env none messages).1
      (all_samples messages)
      (Stamped messages)
      (run env config worker messages)
unfolding all_quieted quieted_in quieted
run-Passed_example = run-Passed env config worker messages no_resets

run-Legal_events_example : Legal 200 none (erase (run env config worker messages).1)
run-Legal_events_example =
    run-Legal_events env config (some 0) (some 0) (some 0) false worker messages started no_resets

run-IsDrained_example : IsDrained env config (run env config worker (reset_flag ∷ messages)).0
run-IsDrained_example =
    run-IsDrained env config (some 0) (some 0) (some 0) false worker (reset_flag ∷ messages) started
