-- ===== src/Video/Session.antt =====
-- crates/video-decoder/src/backend/software.rs, `SwVideoSession`, and `OutputTarget` of session.rs. The
-- decoder of openh264 is a parameter: its state, and what it makes of the bytes of a packet. What
-- `Decoder::new` answers may differ from call to call, so a method that makes one takes the answer.
-- A method returns the session beside its result, and `none` for the result of a call that does not
-- end. The demuxer is the one there is, `Mp4Demuxer`.
pub mod Create
pub mod Calls
pub mod Kept
pub mod Stable
pub mod Returns
pub mod Outcome
pub mod Looping
pub mod Buffer
mod Tests
use kalidokit_rust.Base.{
  ℕ, zero, suc, ◌*◌, ◌%◌, ◌^◌, Bool, true, false, not, ◌&&◌, Option, none, some, List, [], ◌∷◌,
  ◌++◌, String, ◌==◌, length, take, if◌then◌else◌,
}
use Prim.Native.String.{◌++◌ as str_append}
use kalidokit_rust.Base.Time.{Duration}
use kalidokit_rust.Base.Result.{Result, ok, err, ensure, map_err, ◌>>=◌, ◌>>◌}
use kalidokit_rust.Video.AnnexB.{Bytes}
use kalidokit_rust.Video.SampleTable.{u32, u64}
use kalidokit_rust.Video.Types.{
  VideoError, unsupported_codec, decode, Codec, h264, h265, vp9, av1, Backend, software,
  PixelFormat, ColorSpace, FrameStatus, new_frame, waiting, end_of_stream, VideoInfo,
}
use kalidokit_rust.Video.Mp4.{Mp4Demuxer, VideoPacket, Reader, Conversions, next_packet, seek_to}
use kalidokit_rust.Video.Mp4.Open.{CodecParameters, Opened}
use kalidokit_rust.Video.Playback.{PlaybackState, tick, check_end_of_stream}
use kalidokit_rust.Video.Playback
use kalidokit_rust.Video.Selection.{NativeHandle, SessionConfig}

pub record OutputTarget : Type 0 where
  pub native_handle : NativeHandle
  pub format : PixelFormat
  pub width : ℕ
  pub height : ℕ
  pub color_space : ColorSpace

-- A picture in YUV: its dimensions, and the write of its pixels over those of a buffer.
pub record Picture : Type 0 where
  pub width : ℕ
  pub height : ℕ
  pub write_rgba8 : Bytes → Bytes

-- `Decoder::decode`: the decoder after the call, and an error, or a picture if one is ready.
abbrev pub Decoder : Type 0 → Type 0
Decoder D = D → Bytes → D × Result String (Option Picture)

pub record SwVideoSession (D Fps : Type 0) : Type 0 where
  pub demuxer : Mp4Demuxer
  pub decoder : D
  pub frame_buffer : Bytes
  pub output : OutputTarget
  pub playback : PlaybackState Fps
  pub info : VideoInfo Fps
  pub ended : Bool

unfoldable pub zeros : ℕ → Bytes
zeros zero = []
zeros (suc n) = 0 ∷ zeros n

-- `Vec::resize` with 0.
unfoldable pub resize : Bytes → ℕ → Bytes
unfolding zeros
resize bytes n = take n (bytes ++ zeros n)

-- The answer of a call that finds no more packets.
unfoldable pub at_end : Bool → FrameStatus
at_end looping = if looping then waiting else end_of_stream

module _ {D Fps : Type 0} (reader : Reader) (conv : Conversions) (decode_nal : Decoder D) where
  -- The picture goes to the buffer, which is made to fit it first.
  unfoldable pub fit : Picture → SwVideoSession D Fps → SwVideoSession D Fps
  unfolding resize
  fit yuv self =
      let needed = u64 (yuv.width * yuv.height * 4) in
      if length self.frame_buffer == needed then self else record self {
        frame_buffer = resize self.frame_buffer needed;
        info = record self.info { width = u32 yuv.width; height = u32 yuv.height };
      }

  unfoldable pub show : Picture → SwVideoSession D Fps → SwVideoSession D Fps
  unfolding fit
  show yuv self =
      let fitted = fit yuv self in
      record fitted { frame_buffer = yuv.write_rgba8 fitted.frame_buffer }

  -- `decode_next_packet` on what the decoder answered.
  unfoldable pub take_picture :
      Result String (Option Picture) → SwVideoSession D Fps → SwVideoSession D Fps × Bool
  unfolding show
  take_picture (err e) self = (self, false)
  take_picture (ok none) self = (self, false)
  take_picture (ok (some yuv)) self = (show yuv self, true)

  unfoldable pub decode_packet : VideoPacket → SwVideoSession D Fps → SwVideoSession D Fps × Bool
  unfolding take_picture
  decode_packet packet self =
      let (decoder, answer) = decode_nal self.decoder packet.data_bytes in
      take_picture answer (record self { decoder = decoder })

  -- `decode_next_packet` after the demuxer's answer.
  unfoldable pub decode_answer :
      Option (Result VideoError (Option VideoPacket))
      → SwVideoSession D Fps
      → SwVideoSession D Fps × Option (Result VideoError Bool)
  unfolding decode_packet
  decode_answer none self = (self, none)
  decode_answer (some (err e)) self = (self, some (err e))
  decode_answer (some (ok none)) self = (record self { ended = true }, some (ok false))
  decode_answer (some (ok (some packet))) self =
      let (self', shown) = decode_packet packet self in (self', some (ok shown))

  unfoldable pub decode_next_packet :
      SwVideoSession D Fps → SwVideoSession D Fps × Option (Result VideoError Bool)
  unfolding decode_answer
  decode_next_packet self =
      let (demuxer, answer) = next_packet reader conv self.demuxer in
      decode_answer answer (record self { demuxer = demuxer })

  -- The loop: the session after a round, the round's answer, and the rounds that follow.
  unfoldable pub after_round :
      Option (Result VideoError Bool)
      → SwVideoSession D Fps
      → SwVideoSession D Fps × Option (Result VideoError FrameStatus)
      → SwVideoSession D Fps × Option (Result VideoError FrameStatus)
  unfolding at_end
  after_round none self rest = (self, none)
  after_round (some (err e)) self rest = (self, some (err e))
  after_round (some (ok true)) self rest = (self, some (ok new_frame))
  after_round (some (ok false)) self rest =
      if self.ended then (self, some (ok (at_end self.playback.looping))) else rest

  unfoldable pub decode_loop :
      ℕ → SwVideoSession D Fps → SwVideoSession D Fps × Option (Result VideoError FrameStatus)
  unfolding decode_next_packet after_round
  decode_loop zero self = (self, none)
  decode_loop (suc fuel) self =
      let (self', answer) = decode_next_packet self in
      after_round answer self' (decode_loop fuel self')

  -- The new decoder of `decode_frame` and of `seek`.
  unfoldable pub renew :
      Result String D → SwVideoSession D Fps → SwVideoSession D Fps × Result VideoError (Unit {0})
  renew (err e) self = (self, err (decode (str_append "failed to recreate openh264 decoder: " e)))
  renew (ok decoder) self = (record self { decoder = decoder; ended = false }, ok tt)

  -- Back to the start, with a new decoder.
  unfoldable pub rewind :
      Result String D → SwVideoSession D Fps → SwVideoSession D Fps × Result VideoError (Unit {0})
  unfolding renew
  rewind created self = elim (seek_to conv self.demuxer 0) [
    | err e ↦ (self, err e)
    | ok demuxer ↦ renew created (record self { demuxer = demuxer })
  ]

  -- From the test of `ended` on. A round takes a sample or ends the loop.
  unfoldable pub decode_due :
      SwVideoSession D Fps → SwVideoSession D Fps × Option (Result VideoError FrameStatus)
  unfolding decode_loop
  decode_due self =
      let decoded = decode_loop (suc (length self.demuxer.samples)) self in
      if self.ended then (self, some (ok end_of_stream)) else decoded

  -- With a frame due and the stream going on.
  unfoldable pub after_rewind :
      Result VideoError (Unit {0})
      → SwVideoSession D Fps
      → SwVideoSession D Fps × Option (Result VideoError FrameStatus)
  unfolding decode_due
  after_rewind (err e) self = (self, some (err e))
  after_rewind (ok _) self = decode_due self

  unfoldable pub decode_on :
      Result String D
      → SwVideoSession D Fps
      → SwVideoSession D Fps × Option (Result VideoError FrameStatus)
  unfolding rewind after_rewind
  decode_on created self =
      let (self', answer) = rewind created self in
      let again = after_rewind answer self' in
      let straight = decode_due self in
      if self.ended && self.playback.looping then again else straight

  unfoldable pub decode_frame :
      Result String D
      → SwVideoSession D Fps
      → Duration
      → SwVideoSession D Fps × Option (Result VideoError FrameStatus)
  unfolding decode_on tick check_end_of_stream
  decode_frame created self dt =
      let (moved, due) = tick self.playback dt in
      let (playback, goes_on) = check_end_of_stream moved in
      let on = decode_on created (record self { playback = playback }) in
      if self.playback.paused
      then (self, some (ok waiting))
      else if not due
      then (record self { playback = moved }, some (ok waiting))
      else if not goes_on
      then (record self { playback = playback }, some (ok end_of_stream))
      else on
