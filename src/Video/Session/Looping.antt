-- ===== src/Video/Session/Looping.antt =====
-- A looping `SwVideoSession` (crates/video-decoder/src/backend/software.rs) at the end of
-- its packets.
use kalidokit_rust.Base.{
  ◌+◌, ℕ, ◌≤◌, ◌<◌, ◌≡◌, ◌≢◌, refl, ◌∙◌, ap, sym, true, false, not, ◌&&◌, Option, none, some,
  String, ◌⊎◌, inl, inr, Bool-cases, if_elim,
}
use kalidokit_rust.Base.Time.{Duration, max_duration}
use kalidokit_rust.Base.Result.{Result, ok, err}
use kalidokit_rust.Video.Types.{VideoError, FrameStatus, new_frame, waiting, end_of_stream}
use kalidokit_rust.Video.Mp4.{Mp4Demuxer, VideoPacket, Reader, Conversions, next_packet, seek_to}
use kalidokit_rust.Video.Playback.{PlaybackState, tick}
use kalidokit_rust.Video.Session.{
  Picture, Decoder, SwVideoSession, take_picture, decode_packet, decode_answer, decode_next_packet,
  after_round, decode_loop, renew, rewind, decode_due, after_rewind, decode_on, decode_frame,
}
use kalidokit_rust.Video.Session.Kept.{next_packet-file, seek_to-file, show-SameStream}
use kalidokit_rust.Video.Session.Stable.{Stable, decode_frame-Stable}
use kalidokit_rust.Video.Session.Returns.{decode_frame_total}
use kalidokit_rust.Video.Session.Outcome.{
  framed, failed, exhausted, no_return, clock, clock-Settings, tick-due, true-ne_false, both_false,
  decode_frame-due, decode_frame-Outcome, Outcome-goes_on,
}

none-ne_some : {A : Type 0} {a : A} → Path (Option A) none (some a) → ⊥
none-ne_some h = cc

seek_to-cursor :
    (conv : Conversions) (d : Mp4Demuxer) (c : ℕ) (position : Duration)
    → seek_to conv (record d { cursor = c }) position ≡ seek_to conv d position
unfolding seek_to
seek_to-cursor conv d c position = refl

module _ {D Fps : Type 0} (reader : Reader) (conv : Conversions) (decode_nal : Decoder D) where
  decode_frame-paused :
      (created : Result String D) (self : SwVideoSession D Fps) (dt : Duration)
      → self.playback.paused ≡ true
      → decode_frame reader conv decode_nal created self dt ≡ (self, some (ok waiting))
  unfolding decode_frame
  decode_frame-paused created self dt h =
      if_elim (λ r. r ≡ (self, some (ok waiting))) self.playback.paused _ _ (λ e. refl)
        (λ e. absurd (true-ne_false (sym h ∙ e)))

  decode_frame-early :
      (created : Result String D) (self : SwVideoSession D Fps) (dt : Duration)
      → self.playback.paused ≡ false
      → (tick self.playback dt).1 ≡ false
      → (decode_frame reader conv decode_nal created self dt).1 ≡ some (ok waiting)
  unfolding decode_frame
  decode_frame-early created self dt on early =
      let Waits : SwVideoSession D Fps × Option (Result VideoError FrameStatus) → Type 0 =
        λ r. r.1 ≡ some (ok waiting) in
      if_elim Waits self.playback.paused _ _ (λ e. refl)
        (λ e.
          if_elim Waits (not (tick self.playback dt).1) _ _ (λ e. refl)
            (λ e. absurd (true-ne_false (sym (ap not early) ∙ e))))

  -- `decode_frame` of a looping session, paused or not, whatever its clock: the answer is never the
  -- end of the stream.
  pub decode_frame-goes_on :
      (created : Result String D) (self : SwVideoSession D Fps) (dt : Duration)
      → self.playback.looping ≡ true
      → (decode_frame reader conv decode_nal created self dt).1 ≢ some (ok end_of_stream)
  decode_frame-goes_on created self dt loops = elim (Bool-cases self.playback.paused) [
    | inl paused ↦ rw (decode_frame-paused created self dt paused) (λ e. cc)
    | inr on ↦ elim (Bool-cases (tick self.playback dt).1) [
      | inl due ↦
          Outcome-goes_on reader conv decode_nal _ _
            (decode_frame-Outcome reader conv decode_nal created self dt loops on due)
      | inr early ↦ rw (decode_frame-early created self dt on early) (λ e. cc)
    ]
  ]

  OnFile : Mp4Demuxer → SwVideoSession D Fps → Type 0
  OnFile d s = (c : ℕ) × (s.demuxer ≡ record d { cursor = c })

  OnFile-Stable : (d : Mp4Demuxer) → Stable {Fps = Fps} reader conv decode_nal (OnFile d)
  unfolding OnFile
  OnFile-Stable d = record {
    next = λ s (c, e).
        let (c', h) = next_packet-file reader conv s.demuxer in
        (c', h ∙ ap (λ (m : Mp4Demuxer). record m { cursor = c' }) e);
    moved = λ s d' position h (c, e).
        let (c', h') = seek_to-file reader conv s.demuxer d' position h in
        (c', h' ∙ ap (λ (m : Mp4Demuxer). record m { cursor = c' }) e);
    fresh = λ s decoder p. p;
    timed = λ s playback p. p;
    marked = λ s ended p. p;
    shown = λ s yuv decoder bytes h (c, e).
        (c, (show-SameStream reader conv decode_nal yuv s).demuxer_same ∙ e);
  }

  -- The stream starts with a packet of which a new decoder makes a picture.
  pub record StartsWith (fresh : D) (self : SwVideoSession D Fps) : Type 0 where
    pub start : Mp4Demuxer
    pub packet : VideoPacket
    pub yuv : Picture
    pub found : seek_to conv self.demuxer 0 ≡ ok start
    pub read : (next_packet reader conv start).1 ≡ some (ok (some packet))
    pub pictured : (decode_nal fresh packet.data_bytes).1 ≡ ok (some yuv)

  first_round :
      (fresh : D) (self : SwVideoSession D Fps) (starts : StartsWith fresh self)
      → (decode_due reader conv decode_nal
          (record self { demuxer = starts.start; decoder = fresh; ended = false })).1
        ≡ some (ok new_frame)
  unfolding decode_due decode_loop decode_next_packet decode_answer decode_packet take_picture
      after_round
  first_round fresh self starts = rw (starts.read, starts.pictured) refl

  decode_on-again :
      (fresh : D) (self : SwVideoSession D Fps)
      → StartsWith fresh self
      → self.playback.looping ≡ true
      → self.ended ≡ true
      → (decode_on reader conv decode_nal (ok fresh) self).1 ≡ some (ok new_frame)
  unfolding decode_on after_rewind
  decode_on-again fresh self starts loops ended =
      let Frames : SwVideoSession D Fps × Option (Result VideoError FrameStatus) → Type 0 =
        λ r. r.1 ≡ some (ok new_frame) in
      if_elim Frames (self.ended && self.playback.looping) _ _
        (λ e. rw (starts.found, rewind, renew) (first_round fresh self starts))
        (λ e.
          absurd (true-ne_false (sym ended ∙ both_false self.ended self.playback.looping e loops)))

  again :
      (fresh : D) (self s : SwVideoSession D Fps) (dt : Duration)
      → StartsWith fresh self
      → OnFile self.demuxer s
      → s.playback.looping ≡ true
      → s.playback.paused ≡ false
      → (tick s.playback dt).1 ≡ true
      → s.ended ≡ true
      → (decode_frame reader conv decode_nal (ok fresh) s dt).1 ≡ some (ok new_frame)
  unfolding OnFile
  again fresh self s dt starts (c, same) loops on due ended =
      let found =
        ap (λ (d : Mp4Demuxer). seek_to conv d 0) same
        ∙ seek_to-cursor conv self.demuxer c 0
        ∙ starts.found in
      rw (decode_frame-due reader conv decode_nal (ok fresh) s dt loops on due) (
        decode_on-again fresh (record s { playback = clock s.playback dt })
          (record {
            start = starts.start;
            packet = starts.packet;
            yuv = starts.yuv;
            found = found;
            read = starts.read;
            pictured = starts.pictured;
          })
          ((clock-Settings s.playback dt).0 ∙ loops) ended)

  -- Two calls of `decode_frame` of a looping session that is not paused, each of them due, that is, a
  -- frame interval has passed since the last frame, counted with the time that the call adds: if the
  -- first shows no picture and has no error, the second shows one. The prefix length is from 1 on,
  -- the frame interval is a duration, and the first packet of the stream can be read and gives a
  -- new decoder a picture; the second call has that decoder to make.
  pub decode_frame-again :
      (created : Result String D) (fresh : D) (self : SwVideoSession D Fps) (dt dt' : Duration)
      → 0 < self.demuxer.nal_length_size
      → StartsWith fresh self
      → self.playback.looping ≡ true
      → self.playback.paused ≡ false
      → self.playback.frame_interval ≤ self.playback.elapsed_since_frame + dt
      → self.playback.frame_interval
        ≤ (decode_frame reader conv decode_nal created self dt).0.playback.elapsed_since_frame + dt'
      → self.playback.frame_interval ≤ max_duration
      → let first = decode_frame reader conv decode_nal created self dt in
        (first.1 ≡ some (ok new_frame))
        ⊎ ((e : VideoError) × (first.1 ≡ some (err e)))
        ⊎ ((decode_frame reader conv decode_nal (ok fresh) first.0 dt').1 ≡ some (ok new_frame))
  unfolding OnFile
  decode_frame-again created fresh self dt dt' p starts loops on due due' small =
      let (keep_loops, keep_on, keep_interval) = clock-Settings self.playback dt in
      let first = decode_frame reader conv decode_nal created self dt in
      let on_file =
        decode_frame-Stable reader conv decode_nal (OnFile self.demuxer)
          (OnFile-Stable self.demuxer) created self dt (self.demuxer.cursor, refl) in
      elim (decode_frame-Outcome reader conv decode_nal created self dt loops on
        (tick-due self.playback dt on due small)) [
          | framed h ↦ inl h
          | failed e h ↦ inr (inl (e, h))
          | exhausted h ended same ↦
              let looping = ap (λ (q : PlaybackState Fps). q.looping) same ∙ keep_loops ∙ loops in
              let going = ap (λ (q : PlaybackState Fps). q.paused) same ∙ keep_on ∙ on in
              let interval =
                ap (λ (q : PlaybackState Fps). q.frame_interval) same ∙ keep_interval in
              inr (
                inr (
                  again fresh self first.0 dt' starts on_file looping going
                    (tick-due first.0.playback dt' going (rw interval due') (rw interval small))
                    ended))
          | no_return h ↦
              let (a, e) = decode_frame_total reader conv decode_nal created self dt p in
              absurd (none-ne_some (sym h ∙ e))
        ]
