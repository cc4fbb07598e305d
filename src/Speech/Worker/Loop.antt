-- ===== src/Speech/Worker/Loop.antt =====
-- crates/speech-capture/src/lib.rs, the loop of `vad_worker` around the callback: messages, buffers and
-- the reset. The channel is the list of messages; frames that a reset drains are not in it.
use kalidokit_rust.Base.{
  ℕ, zero, suc, Bool, ◌&&◌, Option, none, some, List, [], ◌∷◌, ◌++◌, String, leb, length, take,
  drop, if◌then◌else◌,
}
use kalidokit_rust.Base.Time.{Duration}
use kalidokit_rust.Base.Result.{Result, ok, err}
use kalidokit_rust.Segmenter.{
  SpeechEvent, voice_start, transcript_interim, voice_end, vad_status, EarlyCutResult, EtdPredictFn,
  VadSegmenter, set_etd_predict, is_speaking, accumulated_audio, feed_with_raw,
}
use kalidokit_rust.Segmenter
use kalidokit_rust.Speech.Worker.{
  HopSize, samples160, samples256, VadResult, Env, SpeechConfig, Worker, interim, emit_all,
}

pub record AudioFrame (Sample : Type 0) : Type 0 where
  pub samples : List Sample
  pub timestamp : Duration

pub data Message (Sample : Type 0) : Type 0 where
  reset_flag : Message Sample
  timed_out : Message Sample
  received : AudioFrame Sample → Message Sample

unfoldable pub as_usize : HopSize → ℕ
as_usize samples160 = 160
as_usize samples256 = 256

module _ {Sample Prob V N S W : Type 0} (env : Env Sample Prob V N S W)
    (config : SpeechConfig) where
  -- The segmenter at the start and after a reset, with the detector if there is one.
  unfoldable pub new_segmenter : Option S → VadSegmenter Sample S
  unfolding Segmenter.new set_etd_predict
  new_segmenter none = Segmenter.new config.min_speech_duration_ms config.silence_timeout_ms
  new_segmenter (some detector) =
      set_etd_predict (Segmenter.new config.min_speech_duration_ms config.silence_timeout_ms)
        detector

  -- Before the loop, from what the makers of the parts gave: without a voice detector the worker ends.
  unfoldable pub start : Option V → Option S → Option W → Bool → Option (Worker Sample V N S W)
  unfolding new_segmenter
  start none detector engine denoise = none
  start (some vad) detector engine denoise = some (record {
    vad_instance = vad;
    seg = new_segmenter detector;
    whisper_engine = engine;
    last_interim_time = 0;
    denoiser = if denoise then some env.new_denoiser else none;
    reframe_buf = [];
    raw_reframe_buf = [];
  })

  -- What the reset flag asks for.
  unfoldable pub reset : Worker Sample V N S W → Worker Sample V N S W
  unfolding new_segmenter
  reset w = record w {
    seg = new_segmenter w.seg.etd_predict;
    last_interim_time = 0;
    denoiser = elim w.denoiser [ none ↦ none | some d ↦ some env.new_denoiser ];
    reframe_buf = [];
    raw_reframe_buf = [];
  }

  abbrev pub status : Duration → VadResult Prob → List (SpeechEvent Sample Prob)
  status timestamp result =
      if config.emit_vad_status
      then vad_status timestamp result.probability result.is_voice ∷ []
      else []

  -- A chunk that the voice detector has judged.
  unfoldable pub judged :
      Worker Sample V N S W
      → List Sample
      → List Sample
      → Duration
      → Result String (VadResult Prob)
      → Worker Sample V N S W × List (SpeechEvent Sample Prob)
  unfolding interim emit_all
  judged w samples raw_samples timestamp (err e) = (w, [])
  judged w samples raw_samples timestamp (ok result) =
      let (w', partial) = interim env config config.stt_mode w.whisper_engine w timestamp in
      let (seg, events) =
        feed_with_raw env.predict w'.seg result.is_voice samples raw_samples timestamp in
      let (w'', out) = emit_all env config (record w' { seg = seg }) events in
      (w'', status timestamp result ++ (partial ++ out))

  unfoldable pub on_chunk :
      Worker Sample V N S W
      → List Sample
      → List Sample
      → Duration
      → Worker Sample V N S W × List (SpeechEvent Sample Prob)
  unfolding judged
  on_chunk w samples raw_samples timestamp =
      let (vad, answer) = env.process w.vad_instance samples in
      judged (record w { vad_instance = vad }) samples raw_samples timestamp answer

  -- The loop over the chunks of both buffers, which are drained together. A round takes samples
  -- from the first buffer.
  unfoldable pub drain :
      ℕ → Worker Sample V N S W → Duration → Worker Sample V N S W × List (SpeechEvent Sample Prob)
  unfolding on_chunk as_usize
  drain zero w timestamp = (w, [])
  drain (suc fuel) w timestamp =
      let hop = as_usize config.hop_size in
      let taken = record w {
        reframe_buf = drop hop w.reframe_buf;
        raw_reframe_buf = drop hop w.raw_reframe_buf;
      } in
      let (w', out) =
        on_chunk taken (take hop w.reframe_buf) (take hop w.raw_reframe_buf) timestamp in
      let (w'', rest) = drain fuel w' timestamp in
      if leb hop (length w.reframe_buf) && leb hop (length w.raw_reframe_buf)
      then (w'', out ++ rest)
      else (w, [])

  -- The frame goes to both buffers, to the first through the noise suppression.
  unfoldable pub extend : Worker Sample V N S W → List Sample → Worker Sample V N S W
  extend w samples = elim w.denoiser [
    | none ↦ record w {
      raw_reframe_buf = w.raw_reframe_buf ++ samples;
      reframe_buf = w.reframe_buf ++ samples;
    }
    | some d ↦
        let (d', denoised) = env.denoise d samples in
        record w {
          raw_reframe_buf = w.raw_reframe_buf ++ samples;
          denoiser = some d';
          reframe_buf = w.reframe_buf ++ denoised;
        }
  ]

  unfoldable pub on_frame :
      Worker Sample V N S W
      → AudioFrame Sample
      → Worker Sample V N S W × List (SpeechEvent Sample Prob)
  unfolding extend drain
  on_frame w frame =
      let extended = extend w frame.samples in
      drain (length extended.reframe_buf) extended frame.timestamp

  -- A round of the loop.
  unfoldable pub on_message :
      Worker Sample V N S W
      → Message Sample
      → Worker Sample V N S W × List (SpeechEvent Sample Prob)
  unfolding reset on_frame
  on_message w reset_flag = (reset w, [])
  on_message w timed_out = (w, [])
  on_message w (received frame) = on_frame w frame

  unfoldable pub run :
      Worker Sample V N S W
      → List (Message Sample)
      → Worker Sample V N S W × List (SpeechEvent Sample Prob)
  unfolding on_message
  run w [] = (w, [])
  run w (m ∷ ms) =
      let (w', out) = on_message w m in let (w'', rest) = run w' ms in (w'', out ++ rest)
