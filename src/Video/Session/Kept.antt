-- ===== src/Video/Session/Kept.antt =====
-- What the steps of `SwVideoSession` (crates/video-decoder/src/backend/software.rs) leave alone, and
-- which predicates on a session its methods keep.
use kalidokit_rust.Base.{
  ℕ, ◌+◌, ◌*◌, sym, ◌≡◌, refl, ◌==◌, Option, none, some, String, inl, inr, Bool-cases, Option-cases,
  get_elem?, length,
}
use kalidokit_rust.Base.Time.{Duration}
use kalidokit_rust.Base.Result.{Result, ok, err, ok-injective, err-ne_ok}
use kalidokit_rust.Video.SampleTable.{u64}
use kalidokit_rust.Video.Types.{VideoError}
use kalidokit_rust.Video.Mp4.{Mp4Demuxer, VideoPacket, Reader, Conversions, next_packet, seek_to}
use kalidokit_rust.Video.Mp4.Packets.{next_packet-at_end, next_packet-moves}
use kalidokit_rust.Video.Session.{
  Picture, Decoder, SwVideoSession, fit, show, take_picture, decode_packet, decode_answer,
}

-- The picture of a packet changes the buffer and what is said of its size.
pub record SameStream {D Fps : Type 0} (s t : SwVideoSession D Fps) : Type 0 where
  pub demuxer_same : t.demuxer ≡ s.demuxer
  pub playback_same : t.playback ≡ s.playback
  pub ended_same : t.ended ≡ s.ended

module _ (reader : Reader) (conv : Conversions) where
  pub next_packet-file :
      (d : Mp4Demuxer) → (c : ℕ) × ((next_packet reader conv d).0 ≡ record d { cursor = c })
  next_packet-file d = elim (Option-cases (get_elem? d.samples d.cursor)) [
    | inl e ↦ (d.cursor, rw (next_packet-at_end reader conv d e) refl)
    | inr (entry, e) ↦ (d.cursor + 1, next_packet-moves reader conv d entry e)
  ]

  pub seek_to-file :
      (d d' : Mp4Demuxer) (position : Duration)
      → seek_to conv d position ≡ ok d'
      → (c : ℕ) × (d' ≡ record d { cursor = c })
  unfolding seek_to
  seek_to-file d d' position h = elim (Bool-cases (d.timescale == 0)) [
    | inl e ↦ absurd (err-ne_ok (rw e at h))
    | inr e ↦ (_, sym (ok-injective (rw e at h)))
  ]

module _ {D Fps : Type 0} (reader : Reader) (conv : Conversions) (decode_nal : Decoder D) where
  pub show-SameStream :
      (yuv : Picture) (self : SwVideoSession D Fps)
      → SameStream self (show reader conv decode_nal yuv self)
  unfolding show fit
  show-SameStream yuv self =
      elim (Bool-cases (length self.frame_buffer == u64 (yuv.width * yuv.height * 4))) [
        | inl e ↦ rw e (record { demuxer_same = refl; playback_same = refl; ended_same = refl })
        | inr e ↦ rw e (record { demuxer_same = refl; playback_same = refl; ended_same = refl })
      ]

  take_picture-SameStream :
      (answer : Result String (Option Picture)) (self : SwVideoSession D Fps)
      → SameStream self (take_picture reader conv decode_nal answer self).0
  unfolding take_picture
  take_picture-SameStream (err e) self = record {
    demuxer_same = refl;
    playback_same = refl;
    ended_same = refl;
  }
  take_picture-SameStream (ok none) self = record {
    demuxer_same = refl;
    playback_same = refl;
    ended_same = refl;
  }
  take_picture-SameStream (ok (some yuv)) self = show-SameStream yuv self

  pub decode_packet-SameStream :
      (packet : VideoPacket) (self : SwVideoSession D Fps)
      → SameStream self (decode_packet reader conv decode_nal packet self).0
  unfolding decode_packet
  decode_packet-SameStream packet self =
      let r = decode_nal self.decoder packet.data_bytes in
      let same = take_picture-SameStream r.1 (record self { decoder = r.0 }) in
      record {
        demuxer_same = same.demuxer_same;
        playback_same = same.playback_same;
        ended_same = same.ended_same;
      }

  pub decode_answer-demuxer :
      (answer : Option (Result VideoError (Option VideoPacket))) (self : SwVideoSession D Fps)
      → (decode_answer reader conv decode_nal answer self).0.demuxer ≡ self.demuxer
  unfolding decode_answer
  decode_answer-demuxer none self = refl
  decode_answer-demuxer (some (err e)) self = refl
  decode_answer-demuxer (some (ok none)) self = refl
  decode_answer-demuxer (some (ok (some packet))) self =
      (decode_packet-SameStream packet self).demuxer_same

  pub decode_answer-playback :
      (answer : Option (Result VideoError (Option VideoPacket))) (self : SwVideoSession D Fps)
      → (decode_answer reader conv decode_nal answer self).0.playback ≡ self.playback
  unfolding decode_answer
  decode_answer-playback none self = refl
  decode_answer-playback (some (err e)) self = refl
  decode_answer-playback (some (ok none)) self = refl
  decode_answer-playback (some (ok (some packet))) self =
      (decode_packet-SameStream packet self).playback_same
