-- ===== src/Video/Mp4/Tests.antt =====
-- A track of three samples, of which the first and the last are sync samples.
use kalidokit_rust.Base.{
  ℕ, ◌≤◌, ◌≡◌, refl, ◌⊎◌, inl, Bool, true, false, [], ◌∷◌, ◌++◌, some, arith, map, concat,
}
use kalidokit_rust.Base.Int.{pos}
use kalidokit_rust.Base.Result.{ok, err}
use kalidokit_rust.Video.AnnexB.Laws.{avcc_record, prefixed}
use kalidokit_rust.Video.SampleTable.{SampleEntry}
use kalidokit_rust.Video.Types.{unsupported_codec, h264}
use kalidokit_rust.Video.Mp4.{
  VideoSampleEntry, video, not_video, codec_of, extract_video_info, h264_type, other_type, info_of,
  Mp4Demuxer, Reader, Conversions, packet_data, seek_to,
}
use kalidokit_rust.Video.Mp4.Packets.{packet_data-units}
use kalidokit_rust.Video.Mp4.Seeking.{IsSorted, Eligible, seek_to-latest}

abbrev entry : VideoSampleEntry
entry = record {
  codec_type = h264_type;
  width = 640;
  height = 480;
  avc_config = some (1 ∷ 66 ∷ 0 ∷ 30 ∷ 253 ∷ []);
}

info_found : extract_video_info (not_video ∷ video entry ∷ []) ≡ ok (info_of entry h264)
unfolding extract_video_info codec_of
info_found = refl

unknown_codec :
    extract_video_info (video (record entry { codec_type = other_type "HEVC" }) ∷ [])
    ≡ err (unsupported_codec "HEVC")
unfolding extract_video_info codec_of
unknown_codec = refl

abbrev sample : ℕ → Bool → SampleEntry
sample dts sync = record {
  offset = 0;
  size = 3;
  dts_ticks = dts;
  cts_offset = pos 0;
  is_sync = sync;
}

abbrev demuxer : Mp4Demuxer
demuxer = record {
  extra_data = [];
  samples = sample 0 true ∷ sample 10 false ∷ sample 20 true ∷ [];
  timescale = 1;
  cursor = 0;
  nal_length_size = 1;
}

-- Every read gives the same bytes.
abbrev reader : Reader
reader = record { seek_start = λ offset. ok offset; read_exact = λ at size. ok (2 ∷ 7 ∷ 8 ∷ []) }

abbrev conv : Conversions
conv = record { from_ticks = λ ticks timescale. ticks; to_ticks = λ position timescale. position }

packet_data-units_example :
    packet_data
      (avcc_record (1 ∷ 66 ∷ 0 ∷ 30 ∷ 255 ∷ []) 225 ((0x67 ∷ []) ∷ []) ((0x68 ∷ []) ∷ []) [])
      4
      true
      (concat (map (prefixed 4) ((0x65 ∷ 1 ∷ []) ∷ [])) ++ [])
    ≡ some (0 ∷ 0 ∷ 0 ∷ 1 ∷ 0x67 ∷ 0 ∷ 0 ∷ 0 ∷ 1 ∷ 0x68 ∷ 0 ∷ 0 ∷ 0 ∷ 1 ∷ 0x65 ∷ 1 ∷ [])
packet_data-units_example =
    packet_data-units true 4 (1 ∷ 66 ∷ 0 ∷ 30 ∷ 255 ∷ []) 225 ((0x67 ∷ []) ∷ []) ((0x68 ∷ []) ∷ [])
      [] ((0x65 ∷ 1 ∷ []) ∷ []) [] (omega arith) refl (omega arith) (omega arith, tt)
      (omega arith, tt) (omega arith, tt) (inl (omega arith))

demuxer-IsSorted : IsSorted demuxer.samples
demuxer-IsSorted = ((omega arith, (omega arith, tt)), ((omega arith, tt), (tt, tt)))

seek_to-latest_example :
    (c : ℕ) × (seek_to conv demuxer 15 ≡ ok (record demuxer { cursor = c }))
    × ((Eligible demuxer.samples 15 c × ((m : ℕ) → Eligible demuxer.samples 15 m → m ≤ c))
        ⊎ ((c ≡ 0) × ((m : ℕ) → Eligible demuxer.samples 15 m → ⊥)))
seek_to-latest_example = seek_to-latest conv demuxer 15 demuxer-IsSorted (omega arith)
