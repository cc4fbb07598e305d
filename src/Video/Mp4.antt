-- ===== src/Video/Mp4.antt =====
-- crates/video-decoder/src/demux/mp4.rs, `Mp4Demuxer`, and `VideoPacket` of demux/mod.rs. What
-- mp4parse says of a sample description is a record; the file's reads, and the conversions between
-- ticks and durations, which go through f64, are parameters. A text with `{}` keeps its fixed part
-- in front of the error's text.
mod Tests
pub mod Packets
pub mod Seeking
pub mod Open
use kalidokit_rust.Base.{
  ℕ, zero, suc, ◌+◌, ◌-◌, ◌%◌, ◌^◌, Bool, true, false, ◌&&◌, Option, none, some, List, [], ◌∷◌,
  String, ltb, leb, ◌==◌, if◌then◌else◌, length, get_elem?,
}
use Prim.Native.String.{◌++◌ as str_append}
use kalidokit_rust.Base.Int.{ℤ, pos, negsuc, pos_part, ◌+ℤ◌}
use kalidokit_rust.Base.Time.{Duration}
use kalidokit_rust.Base.Result.{Result, ok, err, map_err, ◌>>=◌}
use kalidokit_rust.Video.AnnexB.{Bytes, avcc_to_annex_b, annex_b_from_avcc_extra}
use kalidokit_rust.Video.SampleTable.{SampleEntry, u64}
use kalidokit_rust.Video.Types.{VideoError, demux, seek, unsupported_codec, Codec, h264, av1, vp9}

-- `mp4parse::CodecType`; the last stands for the others, with the text of `{:?}`.
pub data CodecType : Type 0 where
  h264_type av1_type vp9_type : CodecType
  other_type : String → CodecType

pub record VideoSampleEntry : Type 0 where
  pub codec_type : CodecType
  pub width : ℕ
  pub height : ℕ
  -- The bytes of `AVCConfig`, if that is what the entry holds.
  pub avc_config : Option Bytes

-- `mp4parse::SampleEntry`.
pub data Description : Type 0 where
  video : VideoSampleEntry → Description
  not_video : Description

pub record VideoStreamInfo : Type 0 where
  pub codec : Codec
  pub width : ℕ
  pub height : ℕ
  pub extra_data : Bytes
  pub nal_length_size : ℕ

unfoldable pub codec_of : CodecType → Result VideoError Codec
codec_of h264_type = ok h264
codec_of av1_type = ok av1
codec_of vp9_type = ok vp9
codec_of (other_type name) = err (unsupported_codec name)

-- Lines 217-224. `b & 0x03` is `b % 4`.
unfoldable pub nal_length : Option Bytes → Bytes × ℕ
nal_length none = ([], 4)
nal_length (some avcc_bytes) =
    (avcc_bytes, elim (get_elem? avcc_bytes 4) [ none ↦ 4 | some b ↦ b % 4 + 1 ])

abbrev pub info_of : VideoSampleEntry → Codec → VideoStreamInfo
info_of ve codec = record {
  codec = codec;
  width = ve.width;
  height = ve.height;
  extra_data = (nal_length ve.avc_config).0;
  nal_length_size = (nal_length ve.avc_config).1;
}

-- The first video entry decides.
unfoldable pub extract_video_info : List Description → Result VideoError VideoStreamInfo
unfolding codec_of
extract_video_info [] = err (demux "no video sample entry found")
extract_video_info (not_video ∷ descs) = extract_video_info descs
extract_video_info (video ve ∷ descs) = do codec ← codec_of ve.codec_type; ok (info_of ve codec)

-- The fields of `Mp4Demuxer` that packets depend on; `extra_data` is that of its parameters.
pub record Mp4Demuxer : Type 0 where
  pub extra_data : Bytes
  pub samples : List SampleEntry
  pub timescale : ℕ
  pub cursor : ℕ
  pub nal_length_size : ℕ

pub record VideoPacket : Type 0 where
  pub data_bytes : Bytes
  pub pts : Duration
  pub dts : Duration
  pub is_keyframe : Bool

-- `as i64` of a u64.
unfoldable pub as_i64 : ℕ → ℤ
as_i64 n = if ltb n (2 ^ 63) then pos n else negsuc (2 ^ 64 - 1 - n)

-- A sum of two i64, which wraps.
unfoldable pub wrap_i64 : ℤ → ℤ
unfolding as_i64
wrap_i64 (pos n) = as_i64 (u64 n)
wrap_i64 (negsuc n) = as_i64 (2 ^ 64 - 1 - u64 n)

-- `(dts as i64 + cts).max(0) as u64`.
unfoldable pub pts_ticks : ℕ → ℤ → ℕ
unfolding wrap_i64 as_i64 ◌+ℤ◌
pts_ticks dts cts = pos_part (wrap_i64 (as_i64 dts +ℤ cts))

-- The file: a position, if it can be set, and the bytes of that number from a position on.
pub record Reader : Type 0 where
  pub seek_start : ℕ → Result String ℕ
  pub read_exact : ℕ → ℕ → Result String Bytes

-- `from_secs_f64(ticks as f64 / timescale as f64)`, where it does not panic, that is, below 2^64
-- seconds; and `(position.as_secs_f64() * timescale) as u64`.
pub record Conversions : Type 0 where
  pub from_ticks : ℕ → ℕ → Duration
  pub to_ticks : Duration → ℕ → ℕ

unfoldable pub ticks_to_duration : Conversions → ℕ → ℕ → Duration
ticks_to_duration conv timescale ticks =
    if timescale == 0 then 0 else conv.from_ticks ticks timescale

unfoldable pub read_sample : Reader → SampleEntry → Result VideoError Bytes
read_sample reader entry = do
  at ← map_err (λ e. demux (str_append "seek failed: " e)) (reader.seek_start entry.offset)
  map_err (λ e. demux (str_append "read failed: " e)) (reader.read_exact at entry.size)

-- Lines 149-159; `none` where the conversion does not end.
unfoldable pub packet_data : Bytes → ℕ → Bool → Bytes → Option Bytes
unfolding annex_b_from_avcc_extra avcc_to_annex_b
packet_data extra_data nal_length_size is_sync raw =
    avcc_to_annex_b raw nal_length_size
      (if is_sync && ltb 0 (length extra_data) then annex_b_from_avcc_extra extra_data [] else [])

unfoldable pub make_packet : Conversions → ℕ → SampleEntry → Bytes → VideoPacket
make_packet conv timescale entry annex_b = record {
  data_bytes = annex_b;
  pts = ticks_to_duration conv timescale (pts_ticks entry.dts_ticks entry.cts_offset);
  dts = ticks_to_duration conv timescale entry.dts_ticks;
  is_keyframe = entry.is_sync;
}

-- Lines 137-172 from the entry on.
unfoldable pub packet_of :
    Reader
    → Conversions
    → Mp4Demuxer
    → SampleEntry
    → Option (Result VideoError (Option VideoPacket))
packet_of reader conv self entry = elim (read_sample reader entry) [
  | err e ↦ some (err e)
  | ok raw ↦ elim (packet_data self.extra_data self.nal_length_size entry.is_sync raw) [
    | none ↦ none
    | some annex_b ↦ some (ok (some (make_packet conv self.timescale entry annex_b)))
  ]
]

-- The demuxer after the call, and what the call returns, `none` where it does not.
unfoldable pub next_packet :
    Reader → Conversions → Mp4Demuxer → Mp4Demuxer × Option (Result VideoError (Option VideoPacket))
next_packet reader conv self = elim (get_elem? self.samples self.cursor) [
  | none ↦ (self, some (ok none))
  | some entry ↦ (record self { cursor = self.cursor + 1 }, packet_of reader conv self entry)
]

-- The loop over the samples, from the i-th on.
unfoldable pub seek_loop : ℕ → List SampleEntry → ℕ → ℕ → ℕ
seek_loop target_ticks [] i best = best
seek_loop target_ticks (sample ∷ rest) i best =
    let best' = if sample.is_sync && leb sample.dts_ticks target_ticks then i else best in
    let after = seek_loop target_ticks rest (suc i) best' in
    if ltb target_ticks sample.dts_ticks then best' else after

unfoldable pub seek_to : Conversions → Mp4Demuxer → Duration → Result VideoError Mp4Demuxer
unfolding seek_loop
seek_to conv self position =
    if self.timescale == 0
    then err (seek "zero timescale")
    else ok (record self {
      cursor = seek_loop (conv.to_ticks position self.timescale) self.samples 0 0;
    })
