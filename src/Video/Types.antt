-- ===== src/Video/Types.antt =====
-- crates/video-decoder/src: error.rs (`VideoError`) and types.rs (`Codec`, `Backend`, `PixelFormat`,
-- `ColorSpace`, `FrameStatus`, `VideoInfo`). An opaque error is its text. A rate, an f64, is of any type.
use kalidokit_rust.Base.{ℕ, Bool, String}
use kalidokit_rust.Base.Time.{Duration}

pub data VideoError : Type 0 where
  unsupported_codec : String → VideoError
  no_hw_decoder : VideoError
  demux : String → VideoError
  decode : String → VideoError
  gpu_interop : String → VideoError
  seek : String → VideoError
  format_mismatch : String → String → VideoError
  file_not_found : String → VideoError
  other : String → VideoError

pub data Codec : Type 0 where
  h264 h265 vp9 av1 : Codec

pub data Backend : Type 0 where
  video_toolbox d3d12_video media_foundation vulkan_video gstreamer_vaapi v4l2 media_codec
        software :
      Backend

pub data PixelFormat : Type 0 where
  rgba8_srgb rgba8_unorm bgra8_srgb bgra8_unorm : PixelFormat

pub data ColorSpace : Type 0 where
  bt601 bt709 srgb : ColorSpace

pub data FrameStatus : Type 0 where
  new_frame waiting end_of_stream : FrameStatus

pub record VideoInfo (Fps : Type 0) : Type 0 where
  pub codec : Codec
  pub width : ℕ
  pub height : ℕ
  pub duration : Duration
  pub fps : Fps
  pub backend : Backend
  pub needs_color_conversion : Bool
