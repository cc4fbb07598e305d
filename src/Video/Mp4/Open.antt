-- ===== src/Video/Mp4/Open.antt =====
-- crates/video-decoder/src/demux: `Mp4Demuxer::new` and `parameters` of mp4.rs, `CodecParameters` and
-- `create_demuxer` of mod.rs. The file system, mp4parse and the arithmetic of f64 are parameters. The
-- parameters stand beside the demuxer, as does its reader: no call changes them.
pub mod Ready
pub mod Tests
use kalidokit_rust.Base.{
  ℕ, ◌<◌, ◌≤◌, ◌≡◌, refl, ap, Bool, true, false, ◌||◌, Option, none, some, List, [], ◌∷◌, String,
  str_eq, ltb, length, if◌then◌else◌, inl, inr, Option-cases,
}
use Prim.Native.String.{◌++◌ as str_append}
use kalidokit_rust.Base.Time.{Duration}
use kalidokit_rust.Base.Result.{
  Result, ok, err, ok_or, map_err, ◌>>=◌, Result-cases, ok-injective, err-ne_ok,
}
use kalidokit_rust.Video.AnnexB.{Bytes}
use kalidokit_rust.Video.SampleTable.{
  SampleEntry, Track, Box, no_stco, no_stsz, no_stsc, no_stts, build_sample_table,
}
use kalidokit_rust.Video.Types.{VideoError, demux, file_not_found, unsupported_codec, Codec}
use kalidokit_rust.Video.Mp4.{
  Description, VideoStreamInfo, extract_video_info, Mp4Demuxer, Reader, Conversions,
}
use kalidokit_rust.Video.Mp4.Packets.{extract_video_info-nal_length}

pub record CodecParameters (Fps : Type 0) : Type 0 where
  pub codec : Codec
  pub width : ℕ
  pub height : ℕ
  pub fps : Fps
  pub duration : Duration
  pub extra_data : Bytes

-- A track as mp4parse hands it over.
pub record ParsedTrack : Type 0 where
  pub is_video : Bool
  pub stsd : Option (List Description)
  pub timescale : Option ℕ
  pub duration : Option ℕ
  pub boxes : Track

-- What a path leads to: the bytes, if the file opens, and the reader of the second opening.
pub record File : Type 0 where
  pub contents : Option (Result String Bytes)
  pub reopened : Result String Reader

-- `samples.len() as f64 / duration.as_secs_f64()`, and 0.0.
pub record Rates (Fps : Type 0) : Type 0 where
  pub rate : ℕ → Duration → Fps
  pub no_rate : Fps

unfoldable pub failed : String → String → VideoError
failed what e = demux (str_append what e)

unfoldable pub find_video : List ParsedTrack → Option ParsedTrack
find_video [] = none
find_video (t ∷ ts) = if t.is_video then some t else find_video ts

unfoldable pub missing : Box → VideoError
missing no_stco = demux "missing stco/co64 box"
missing no_stsz = demux "missing stsz box"
missing no_stsc = demux "missing stsc box"
missing no_stts = demux "missing stts box"

unfoldable pub value_or_zero : Option ℕ → ℕ
value_or_zero none = 0
value_or_zero (some n) = n

pub record Opened (Fps : Type 0) : Type 0 where
  pub reader : Reader
  pub parameters : CodecParameters Fps
  pub demuxer : Mp4Demuxer

module _ {Fps : Type 0} (conv : Conversions) (rates : Rates Fps)
    (read_mp4 : Bytes → Result String (List ParsedTrack)) where
  unfoldable pub track_duration : ℕ → Option ℕ → Duration
  unfolding value_or_zero
  track_duration timescale ticks =
      if ltb 0 timescale then conv.from_ticks (value_or_zero ticks) timescale else 0

  unfoldable pub frame_rate : List SampleEntry → Duration → Fps
  frame_rate samples duration =
      if ltb 0 duration then rates.rate (length samples) duration else rates.no_rate

  unfoldable pub opened_of :
      ParsedTrack → VideoStreamInfo → ℕ → List SampleEntry → Reader → Opened Fps
  unfolding track_duration frame_rate
  opened_of track info timescale samples reader = record {
    reader = reader;
    parameters = record {
      codec = info.codec;
      width = info.width;
      height = info.height;
      fps = frame_rate samples (track_duration timescale track.duration);
      duration = track_duration timescale track.duration;
      extra_data = info.extra_data;
    };
    demuxer = record {
      extra_data = info.extra_data;
      samples = samples;
      timescale = timescale;
      cursor = 0;
      nal_length_size = info.nal_length_size;
    };
  }

  -- `Mp4Demuxer::new` from the track on.
  unfoldable pub open_track : ParsedTrack → Result String Reader → Result VideoError (Opened Fps)
  unfolding missing failed opened_of
  open_track track reopened = do
    stsd ← ok_or track.stsd (demux "missing stsd box")
    info ← extract_video_info stsd
    timescale ← ok_or track.timescale (demux "missing track timescale")
    samples ← map_err missing (build_sample_table track.boxes)
    reader ← map_err (failed "failed to reopen file: ") reopened
    ok (opened_of track info timescale samples reader)

  unfoldable pub new : String → File → Result VideoError (Opened Fps)
  unfolding open_track find_video failed
  new path file = do
    read ← ok_or file.contents (file_not_found path)
    buf ← map_err (failed "failed to read file: ") read
    tracks ← map_err (failed "mp4parse error: ") (read_mp4 buf)
    track ← ok_or (find_video tracks) (demux "no video track found")
    open_track track file.reopened

  -- `extension` is that of the path in lower case, and the empty text where there is none.
  unfoldable pub create_demuxer : String → String → File → Result VideoError (Opened Fps)
  unfolding new
  create_demuxer extension path file =
      if str_eq extension "mp4" || (str_eq extension "m4v" || str_eq extension "mov")
      then new path file
      else err (unsupported_codec (str_append "unsupported container: ." extension))
