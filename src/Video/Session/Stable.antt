-- ===== src/Video/Session/Stable.antt =====
-- The methods of `SwVideoSession` (crates/video-decoder/src/backend/software.rs) against the six
-- ways in which a session changes, and predicates over lists of calls.
use kalidokit_rust.Base.{
  ℕ, zero, suc, ◌≡◌, refl, Bool, true, false, not, ◌&&◌, Option, none, some, List, [], ◌∷◌, String,
  inl, inr, length, if◌then◌else◌,
}
use kalidokit_rust.Base.Time.{Duration}
use kalidokit_rust.Base.Result.{Result, ok, err, Result-cases}
use kalidokit_rust.Video.AnnexB.{Bytes}
use kalidokit_rust.Video.Types.{VideoError, FrameStatus}
use kalidokit_rust.Video.Mp4.{Mp4Demuxer, VideoPacket, Reader, Conversions, next_packet, seek_to}
use kalidokit_rust.Video.Playback.{PlaybackState, tick, check_end_of_stream}
use kalidokit_rust.Video.Session.Calls.{
  Call, call, calls, frame, looped, pause, paused, resume, resumed, seek, set_looping, sought,
}
use kalidokit_rust.Video.Session.{
  Picture, Decoder, SwVideoSession, show, take_picture, decode_packet, decode_answer,
  decode_next_packet, after_round, decode_loop, renew, rewind, decode_due, after_rewind, decode_on,
  decode_frame,
}

module _ {D Fps : Type 0} (reader : Reader) (conv : Conversions) (decode_nal : Decoder D) where
  pub record Stable (P : SwVideoSession D Fps → Type 0) : Type 0 where
    pub next :
        (s : SwVideoSession D Fps)
        → P s
        → P (record s { demuxer = (next_packet reader conv s.demuxer).0 })
    pub moved :
        (s : SwVideoSession D Fps) (d : Mp4Demuxer) (position : Duration)
        → seek_to conv s.demuxer position ≡ ok d
        → P s
        → P (record s { demuxer = d })
    pub fresh : (s : SwVideoSession D Fps) (decoder : D) → P s → P (record s { decoder = decoder })
    pub timed :
        (s : SwVideoSession D Fps) (playback : PlaybackState Fps)
        → P s
        → P (record s { playback = playback })
    pub marked : (s : SwVideoSession D Fps) (ended : Bool) → P s → P (record s { ended = ended })
    pub shown :
        (s : SwVideoSession D Fps) (yuv : Picture) (decoder : D) (bytes : Bytes)
        → (decode_nal decoder bytes).1 ≡ ok (some yuv)
        → P s
        → P (show reader conv decode_nal yuv s)

  module _ (P : SwVideoSession D Fps → Type 0) (stable : Stable P) where
    if-Stable :
        {A : Type 0} (b : Bool) (x y : SwVideoSession D Fps × A)
        → P x.0
        → P y.0
        → P (if b then x else y).0
    if-Stable true x y px py = px
    if-Stable false x y px py = py

    take_picture-Stable :
        (answer : Result String (Option Picture)) (s : SwVideoSession D Fps) (decoder : D)
        (bytes : Bytes)
        → (decode_nal decoder bytes).1 ≡ answer
        → P s
        → P (take_picture reader conv decode_nal answer s).0
    unfolding take_picture
    take_picture-Stable (err e) s decoder bytes h p = p
    take_picture-Stable (ok none) s decoder bytes h p = p
    take_picture-Stable (ok (some yuv)) s decoder bytes h p = stable.shown s yuv decoder bytes h p

    decode_answer-Stable :
        (answer : Option (Result VideoError (Option VideoPacket))) (s : SwVideoSession D Fps)
        → P s
        → P (decode_answer reader conv decode_nal answer s).0
    unfolding decode_answer decode_packet
    decode_answer-Stable none s p = p
    decode_answer-Stable (some (err e)) s p = p
    decode_answer-Stable (some (ok none)) s p = stable.marked s true p
    decode_answer-Stable (some (ok (some packet))) s p =
        take_picture-Stable (decode_nal s.decoder packet.data_bytes).1 _ s.decoder packet.data_bytes
          refl (stable.fresh s _ p)

    after_round-Stable :
        (answer : Option (Result VideoError Bool)) (s : SwVideoSession D Fps)
        (rest : SwVideoSession D Fps × Option (Result VideoError FrameStatus))
        → P s
        → P rest.0
        → P (after_round reader conv decode_nal answer s rest).0
    unfolding after_round
    after_round-Stable none s rest p q = p
    after_round-Stable (some (err e)) s rest p q = p
    after_round-Stable (some (ok true)) s rest p q = p
    after_round-Stable (some (ok false)) s rest p q = if-Stable s.ended _ rest p q

    decode_loop-Stable :
        (fuel : ℕ) (s : SwVideoSession D Fps)
        → P s
        → P (decode_loop reader conv decode_nal fuel s).0
    unfolding decode_loop decode_next_packet
    decode_loop-Stable zero s p = p
    decode_loop-Stable (suc fuel) s p =
        let d = next_packet reader conv s.demuxer in
        let q = decode_answer-Stable d.1 (record s { demuxer = d.0 }) (stable.next s p) in
        after_round-Stable _ _ _ q (decode_loop-Stable fuel _ q)

    decode_due-Stable : (s : SwVideoSession D Fps) → P s → P (decode_due reader conv decode_nal s).0
    unfolding decode_due
    decode_due-Stable s p =
        if-Stable s.ended _ _ p (decode_loop-Stable (suc (length s.demuxer.samples)) s p)

    renew-Stable :
        (created : Result String D) (s : SwVideoSession D Fps)
        → P s
        → P (renew reader conv decode_nal created s).0
    unfolding renew
    renew-Stable (ok decoder) s p = stable.marked _ false (stable.fresh s decoder p)
    renew-Stable (err e) s p = p

    after_rewind-Stable :
        (answer : Result VideoError (Unit {0})) (s : SwVideoSession D Fps)
        → P s
        → P (after_rewind reader conv decode_nal answer s).0
    unfolding after_rewind
    after_rewind-Stable (err e) s p = p
    after_rewind-Stable (ok x) s p = decode_due-Stable s p

    pub rewind-Stable :
        (created : Result String D) (s : SwVideoSession D Fps)
        → P s
        → P (rewind reader conv decode_nal created s).0
    unfolding rewind
    rewind-Stable created s p = elim (Result-cases (seek_to conv s.demuxer 0)) [
      | inl (d, e) ↦
          rw (e, rewind) (renew-Stable created (record s { demuxer = d }) (stable.moved s d 0 e p))
      | inr (x, e) ↦ rw (e, rewind) p
    ]

    decode_on-Stable :
        (created : Result String D) (s : SwVideoSession D Fps)
        → P s
        → P (decode_on reader conv decode_nal created s).0
    unfolding decode_on
    decode_on-Stable created s p =
        if-Stable (s.ended && s.playback.looping) _ _
          (after_rewind-Stable _ _ (rewind-Stable created s p)) (decode_due-Stable s p)

    pub decode_frame-Stable :
        (created : Result String D) (s : SwVideoSession D Fps) (dt : Duration)
        → P s
        → P (decode_frame reader conv decode_nal created s dt).0
    unfolding decode_frame
    decode_frame-Stable created s dt p =
        let t = tick s.playback dt in
        let c = check_end_of_stream t.0 in
        if-Stable s.playback.paused _ _ p (
          if-Stable (not t.1) _ _ (stable.timed s t.0 p) (
            if-Stable (not c.1) _ _ (stable.timed s c.0 p)
              (decode_on-Stable created _ (stable.timed s c.0 p))))

    seek-Stable :
        (created : Result String D) (s : SwVideoSession D Fps) (position : Duration)
        → P s
        → P (seek reader conv decode_nal created s position).0
    unfolding seek
    seek-Stable created s position p = elim (Result-cases (seek_to conv s.demuxer position)) [
      | inl (d, e) ↦
          rw (e, seek) (renew-Stable created _ (stable.timed _ _ (stable.moved s d position e p)))
      | inr (x, e) ↦ rw (e, seek) p
    ]

    call-Stable :
        (c : Call D) (s : SwVideoSession D Fps) → P s → P (call reader conv decode_nal c s)
    unfolding call set_looping pause resume
    call-Stable (frame created dt) s p = decode_frame-Stable created s dt p
    call-Stable (sought created position) s p = seek-Stable created s position p
    call-Stable (looped looping) s p = stable.timed s _ p
    call-Stable paused s p = stable.timed s _ p
    call-Stable resumed s p = stable.timed s _ p

    pub calls-Stable :
        (cs : List (Call D)) (s : SwVideoSession D Fps)
        → P s
        → P (calls reader conv decode_nal cs s)
    unfolding calls
    calls-Stable [] s p = p
    calls-Stable (c ∷ cs) s p =
        calls-Stable cs (call reader conv decode_nal c s) (call-Stable c s p)
