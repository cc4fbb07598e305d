-- ===== src/Video/Session/Tests.antt =====
-- A session on a track of three samples whose second packet the decoder does not take.
use kalidokit_rust.Base.{
  ℕ, zero, suc, ◌≡◌, ◌≢◌, ◌⊎◌, refl, true, false, Option, some, none, [], ◌∷◌, List, String, arith,
  length, some-injective,
}
use kalidokit_rust.Base.Int.{◌+ℤ◌}
use kalidokit_rust.Base.Time.{Duration, max_duration}
use kalidokit_rust.Base.Result.{Result, ok, err, err-ne_ok, ok-injective}
use kalidokit_rust.Video.AnnexB.{Bytes, avcc_to_annex_b, avcc_loop, be_value}
use kalidokit_rust.Video.Types.{
  VideoError, new_frame, waiting, end_of_stream, h264, rgba8_unorm, bt709, software,
}
use kalidokit_rust.Video.Mp4.{
  next_packet, seek_to, packet_of, read_sample, packet_data, make_packet, ticks_to_duration,
  seek_loop, pts_ticks, as_i64, wrap_i64,
}
use kalidokit_rust.Video.Mp4.Open.{create_demuxer}
use kalidokit_rust.Video.Mp4.Open.Tests.{reader, conv, rates, read_mp4, file, opened, mp4_opens}
use kalidokit_rust.Video.Playback.{tick, check_end_of_stream}
use kalidokit_rust.Video.Playback
use kalidokit_rust.Video.Selection.{metal, SessionConfig}
use kalidokit_rust.Video.Session.{
  OutputTarget, Picture, Decoder, SwVideoSession, zeros, resize, fit, show, take_picture,
  decode_packet, decode_answer, decode_next_packet, at_end, after_round, decode_loop, renew, rewind,
  decode_due, after_rewind, decode_on, decode_frame,
}
use kalidokit_rust.Video.Session.Create.{is_h264, info_of, new, session_of}
use kalidokit_rust.Video.Session.Calls.{Call, frame, sought, calls}
use kalidokit_rust.Video.Session.Returns.{Returns, decode_frame-calls}
use kalidokit_rust.Video.Session.Buffer.{IsPicture, calls-BufferFits, BufferFits}
use kalidokit_rust.Video.Session.Looping.{StartsWith, decode_frame-goes_on, decode_frame-again}

-- A picture of one pixel, written over what is there.
abbrev paint : Bytes → Bytes
paint [] = []
paint (b ∷ bs) = 9 ∷ paint bs

length-paint : (bytes : Bytes) → length (paint bytes) ≡ length bytes
length-paint [] = refl
length-paint (b ∷ bs) = omega (arith, length-paint bs)

abbrev pixel : Picture
pixel = record { width = 1; height = 1; write_rgba8 = paint }

-- It makes a picture of each packet but the second since it was new.
abbrev decode_nal : Decoder ℕ
decode_nal zero bytes = (1, ok (some pixel))
decode_nal (suc zero) bytes = (2, err "no reference")
decode_nal (suc (suc n)) bytes = (n, ok (some pixel))

abbrev output : OutputTarget
output = record {
  native_handle = metal;
  format = rgba8_unorm;
  width = 1;
  height = 1;
  color_space = bt709;
}

abbrev config : SessionConfig
config = record {
  looping = true;
  preferred_backend = none;
  allow_software_fallback = true;
  decode_buffer_size = 4;
}

abbrev interval_of : ℕ → Option Duration
interval_of fps = some 40

abbrev session : SwVideoSession ℕ ℕ
session = record {
  demuxer = opened.demuxer;
  decoder = 0;
  frame_buffer = 0 ∷ 0 ∷ 0 ∷ 0 ∷ [];
  output = output;
  playback = record {
    position = 0;
    duration = 100;
    fps = 2;
    looping = true;
    paused = false;
    frame_interval = 40;
    elapsed_since_frame = 0;
  };
  info = record {
    codec = h264;
    width = 1;
    height = 1;
    duration = 100;
    fps = 2;
    backend = software;
    needs_color_conversion = false;
  };
  ended = false;
}

session_made :
    new interval_of (create_demuxer conv rates read_mp4 "mp4" "v.mp4" file) output config (ok 0)
    ≡ ok session
unfolding new session_of info_of is_h264 zeros Playback.new
session_made = rw mp4_opens refl

-- A picture, then the packet that is not taken and the end, then a picture again.
answers :
    let first = decode_frame reader conv decode_nal (ok 0) session 40 in
    let second = decode_frame reader conv decode_nal (ok 0) first.0 40 in
    let third = decode_frame reader conv decode_nal (ok 0) second.0 40 in
    (first.1 ≡ some (ok new_frame))
    × (second.1 ≡ some (ok waiting))
    × (third.1 ≡ some (ok new_frame))
unfolding decode_frame tick check_end_of_stream decode_on rewind renew after_rewind decode_due
    decode_loop after_round decode_next_packet decode_answer decode_packet take_picture show fit
    resize zeros at_end next_packet packet_of read_sample packet_data avcc_to_annex_b avcc_loop
    be_value make_packet ticks_to_duration seek_to seek_loop max_duration pts_ticks as_i64 wrap_i64
    ◌+ℤ◌
answers = (refl, refl, refl)

pixel-IsPicture :
    (yuv : Picture)
    → Path (Result String (Option Picture)) (ok (some pixel)) (ok (some yuv))
    → IsPicture yuv
pixel-IsPicture yuv h = rw (← some-injective _ _ (ok-injective h)) (record {
  width_fits = omega arith;
  height_fits = omega arith;
  size_fits = omega arith;
  write_in_place = length-paint;
})

pictures :
    (decoder : ℕ) (bytes : Bytes) (yuv : Picture)
    → (decode_nal decoder bytes).1 ≡ ok (some yuv)
    → IsPicture yuv
pictures zero bytes yuv h = pixel-IsPicture yuv h
pictures (suc zero) bytes yuv h = absurd (err-ne_ok h)
pictures (suc (suc n)) bytes yuv h = pixel-IsPicture yuv h

abbrev history : List (Call ℕ)
history = frame (ok 0) 40 ∷ sought (ok 0) 15 ∷ frame (err "no memory") 90 ∷ []

decode_frame-calls_example :
    Returns
      (decode_frame reader conv decode_nal (ok 0) (calls reader conv decode_nal history session) 40)
decode_frame-calls_example =
    decode_frame-calls conv rates read_mp4 interval_of decode_nal "mp4" "v.mp4" file opened output
      config (ok 0) session mp4_opens session_made history (ok 0) 40

calls-BufferFits_example : BufferFits (calls reader conv decode_nal history session)
calls-BufferFits_example =
    calls-BufferFits reader conv decode_nal pictures interval_of opened output config (ok 0) session
      (omega arith) (rw mp4_opens at session_made) history

decode_frame-goes_on_example :
    (decode_frame reader conv decode_nal (ok 0) session 40).1 ≢ some (ok end_of_stream)
decode_frame-goes_on_example = decode_frame-goes_on reader conv decode_nal (ok 0) session 40 refl

starts : StartsWith reader conv decode_nal 0 session
unfolding next_packet packet_of read_sample packet_data avcc_to_annex_b avcc_loop be_value
    make_packet ticks_to_duration seek_to seek_loop pts_ticks as_i64 wrap_i64 ◌+ℤ◌
starts = record {
  start = opened.demuxer;
  packet = _;
  yuv = pixel;
  found = refl;
  read = refl;
  pictured = refl;
}

decode_frame-again_example :
    let first = decode_frame reader conv decode_nal (ok 0) session 40 in
    (first.1 ≡ some (ok new_frame))
    ⊎ ((e : VideoError) × (first.1 ≡ some (err e)))
    ⊎ ((decode_frame reader conv decode_nal (ok 0) first.0 50).1 ≡ some (ok new_frame))
unfolding max_duration
decode_frame-again_example =
    decode_frame-again reader conv decode_nal (ok 0) 0 session 40 50 (omega arith) starts refl refl
      (omega arith) (omega arith) (omega arith)
