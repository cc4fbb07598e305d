-- ===== src/Video/Session/Create.antt =====
-- `SwVideoSession::new` (crates/video-decoder/src/backend/software.rs), from the answer of
-- `create_demuxer` on, and what a session that it makes is.
use kalidokit_rust.Base.{◌*◌, Bool, true, false, Option, String, ◌≡◌, refl, Bool-cases, inl, inr}
use Prim.Native.String.{◌++◌ as str_append}
use kalidokit_rust.Base.Time.{Duration}
use kalidokit_rust.Base.Result.{
  Result, ok, err, ensure, map_err, ◌>>=◌, ◌>>◌, ok-injective, err-ne_ok,
}
use kalidokit_rust.Video.SampleTable.{u64}
use kalidokit_rust.Video.Types.{
  VideoError, unsupported_codec, decode, Codec, h264, h265, vp9, av1, software, VideoInfo,
}
use kalidokit_rust.Video.Mp4.Open.{CodecParameters, Opened}
use kalidokit_rust.Video.Playback.{PlaybackState, tick, check_end_of_stream}
use kalidokit_rust.Video.Playback
use kalidokit_rust.Video.Selection.{SessionConfig}
use kalidokit_rust.Video.Session.{OutputTarget, SwVideoSession, zeros}

unfoldable pub is_h264 : Codec → Bool
is_h264 h264 = true
is_h264 _ = false

unfoldable pub codec_name : Codec → String
codec_name h264 = "H264"
codec_name h265 = "H265"
codec_name vp9 = "Vp9"
codec_name av1 = "Av1"

unfoldable pub info_of : {Fps : Type 0} → CodecParameters Fps → VideoInfo Fps
info_of params = record {
  codec = params.codec;
  width = params.width;
  height = params.height;
  duration = params.duration;
  fps = params.fps;
  backend = software;
  needs_color_conversion = false;
}

module _ {D Fps : Type 0} where
  -- `new`, from the answer of `create_demuxer` on.
  unfoldable pub session_of :
      (Fps → Option Duration) → Opened Fps → OutputTarget → SessionConfig → D → SwVideoSession D Fps
  unfolding info_of zeros Playback.new
  session_of interval_of opened output config decoder = record {
    demuxer = opened.demuxer;
    decoder = decoder;
    frame_buffer = zeros (u64 (opened.parameters.width * opened.parameters.height * 4));
    output = output;
    playback =
        Playback.new interval_of opened.parameters.duration opened.parameters.fps config.looping;
    info = info_of opened.parameters;
    ended = false;
  }

  unfoldable pub new :
      (Fps → Option Duration)
      → Result VideoError (Opened Fps)
      → OutputTarget
      → SessionConfig
      → Result String D
      → Result VideoError (SwVideoSession D Fps)
  unfolding session_of is_h264 codec_name
  new interval_of created_demuxer output config created = do
    opened ← created_demuxer
    ensure (is_h264 opened.parameters.codec) (
          unsupported_codec (
            str_append "software backend only supports H.264, got "
              (codec_name opened.parameters.codec)))
        >> do
          decoder ←
              map_err (λ e. decode (str_append "failed to create openh264 decoder: " e)) created
          ok (session_of interval_of opened output config decoder)

module _ {D Fps : Type 0} (interval_of : Fps → Option Duration) where
  -- `new` succeeds only on H.264 with a decoder.
  pub new-session_of :
      (opened : Opened Fps) (output : OutputTarget) (config : SessionConfig)
      (created : Result String D) (s : SwVideoSession D Fps)
      → new interval_of (ok opened) output config created ≡ ok s
      → (decoder : D) × (created ≡ ok decoder)
        × (session_of interval_of opened output config decoder ≡ s)
  unfolding new
  new-session_of opened output config (ok decoder) s h =
      elim (Bool-cases (is_h264 opened.parameters.codec)) [
        | inl e ↦ (decoder, refl, ok-injective (rw e at h))
        | inr e ↦ absurd (err-ne_ok (rw e at h))
      ]
  new-session_of opened output config (err x) s h =
      elim (Bool-cases (is_h264 opened.parameters.codec)) [
        | inl e ↦ absurd (err-ne_ok (rw e at h))
        | inr e ↦ absurd (err-ne_ok (rw e at h))
      ]

  pub new-demuxer :
      (opened : Opened Fps) (output : OutputTarget) (config : SessionConfig)
      (created : Result String D) (s : SwVideoSession D Fps)
      → new interval_of (ok opened) output config created ≡ ok s
      → s.demuxer ≡ opened.demuxer
  unfolding session_of
  new-demuxer opened output config created s h =
      let (decoder, _, e) = new-session_of opened output config created s h in rw (← e) refl
