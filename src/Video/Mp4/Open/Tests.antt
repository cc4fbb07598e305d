-- ===== src/Video/Mp4/Open/Tests.antt =====
-- A file whose second track is a video track of two samples in one chunk.
use kalidokit_rust.Base.{
  get_elem?, FirstAt, ℕ, ◌≡◌, refl, Bool, true, false, some, none, [], ◌∷◌, List, String,
}
use kalidokit_rust.Base.Int.{pos}
use kalidokit_rust.Base.Result.{Result, ok, err}
use kalidokit_rust.Video.AnnexB.{Bytes}
use kalidokit_rust.Video.SampleTable.{
  SampleEntry, Track, build_sample_table, chunks_loop, chunk_loop, samples_in_chunk, size_of,
  add_sample, push, advance_stts, advance_ctts, total_of, sync_number, contains,
}
use kalidokit_rust.Video.Types.{demux, unsupported_codec, h264}
use kalidokit_rust.Video.Mp4.Packets.{after_calls, answer}
use kalidokit_rust.Video.Mp4.{
  next_packet, video, extract_video_info, codec_of, nal_length, h264_type, Reader, Conversions,
}
use kalidokit_rust.Video.Mp4.Open.{
  ParsedTrack, File, Rates, Opened, failed, find_video, value_or_zero, track_duration, frame_rate,
  opened_of, open_track, new, create_demuxer,
}
use kalidokit_rust.Video.Mp4.Open.Ready.{IsReady, new-in_order}

abbrev boxes : Track
boxes = record {
  stco = some (100 ∷ []);
  stsz = some (record { sample_size = 0; sample_sizes = 3 ∷ 3 ∷ [] });
  stsc = some (record { first_chunk = 1; samples_per_chunk = 2 } ∷ []);
  stts = some (record { sample_count = 2; sample_delta = 10 } ∷ []);
  stss = some (1 ∷ []);
  ctts = none;
}

abbrev video_track : ParsedTrack
video_track = record {
  is_video = true;
  stsd = some (
      video (record {
        codec_type = h264_type;
        width = 1;
        height = 1;
        avc_config = some (1 ∷ 66 ∷ 0 ∷ 30 ∷ 252 ∷ []);
      })
      ∷ []);
  timescale = some 1;
  duration = some 100;
  boxes = boxes;
}

abbrev pub reader : Reader
reader = record { seek_start = λ offset. ok offset; read_exact = λ at size. ok (2 ∷ 7 ∷ 8 ∷ []) }

abbrev pub conv : Conversions
conv = record { from_ticks = λ ticks timescale. ticks; to_ticks = λ position timescale. position }

abbrev pub rates : Rates ℕ
rates = record { rate = λ count duration. count; no_rate = 0 }

abbrev pub read_mp4 : Bytes → Result String (List ParsedTrack)
read_mp4 [] = err "empty"
read_mp4 bytes = ok (record video_track { is_video = false } ∷ video_track ∷ [])

abbrev pub file : File
file = record { contents = some (ok (1 ∷ [])); reopened = ok reader }

abbrev entry : ℕ → ℕ → Bool → SampleEntry
entry offset dts sync = record {
  offset = offset;
  size = 3;
  dts_ticks = dts;
  cts_offset = pos 0;
  is_sync = sync;
}

abbrev pub opened : Opened ℕ
opened = record {
  reader = reader;
  parameters = record {
    codec = h264;
    width = 1;
    height = 1;
    fps = 2;
    duration = 100;
    extra_data = 1 ∷ 66 ∷ 0 ∷ 30 ∷ 252 ∷ [];
  };
  demuxer = record {
    extra_data = 1 ∷ 66 ∷ 0 ∷ 30 ∷ 252 ∷ [];
    samples = entry 100 0 true ∷ entry 103 10 false ∷ [];
    timescale = 1;
    cursor = 0;
    nal_length_size = 1;
  };
}

file_opens : new conv rates read_mp4 "v.mp4" file ≡ ok opened
unfolding new find_video open_track opened_of track_duration frame_rate value_or_zero
    extract_video_info codec_of nal_length build_sample_table chunks_loop chunk_loop
    samples_in_chunk size_of add_sample push advance_stts advance_ctts total_of sync_number contains
file_opens = refl

pub mp4_opens : create_demuxer conv rates read_mp4 "mp4" "v.mp4" file ≡ ok opened
unfolding create_demuxer new find_video open_track opened_of track_duration frame_rate value_or_zero
    extract_video_info codec_of nal_length build_sample_table chunks_loop chunk_loop
    samples_in_chunk size_of add_sample push advance_stts advance_ctts total_of sync_number contains
mp4_opens = refl

not_a_container :
    create_demuxer conv rates read_mp4 "webm" "v.webm" file
    ≡ err (unsupported_codec "unsupported container: .webm")
unfolding create_demuxer
not_a_container = refl

no_moov :
    new conv rates read_mp4 "v.mp4" (record file { contents = some (ok []) })
    ≡ err (demux "mp4parse error: empty")
unfolding new failed
no_moov = refl

new-in_order_example :
    (buf : Bytes) × (file.contents ≡ some (ok buf))
    × (tracks : List ParsedTrack) × (read_mp4 buf ≡ ok tracks)
    × (i : ℕ) × (track : ParsedTrack) × (get_elem? tracks i ≡ some track)
    × FirstAt (λ t. t.is_video) tracks i
    × (table : List SampleEntry) × (build_sample_table track.boxes ≡ ok table)
    × IsReady track opened
    × ((k : ℕ)
        → (next_packet reader conv (after_calls reader conv k opened.demuxer)).1
          ≡ answer reader conv opened.demuxer (get_elem? table k))
new-in_order_example = new-in_order conv rates read_mp4 "v.mp4" file opened file_opens
