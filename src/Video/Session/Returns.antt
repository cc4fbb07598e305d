-- ===== src/Video/Session/Returns.antt =====
-- `decode_frame` of `SwVideoSession` (crates/video-decoder/src/backend/software.rs) and the
-- fuel of its loop over packets.
use kalidokit_rust.Base.{
  ℕ, zero, suc, ◌-◌, ◌<◌, ◌≡◌, refl, ◌∙◌, Bool, true, false, not, ◌&&◌, Option, none, some, List,
  String, arith, inl, inr, Option-cases, length, get_elem?, lt-length_of_get, if◌then◌else◌,
}
use kalidokit_rust.Base.Time.{Duration}
use kalidokit_rust.Base.Result.{Result, ok, err}
use kalidokit_rust.Video.Types.{VideoError, FrameStatus}
use kalidokit_rust.Video.Mp4.{VideoPacket, Reader, Conversions, next_packet}
use kalidokit_rust.Video.Mp4.Packets.{next_packet_total, next_packet-at_end, next_packet-moves}
use kalidokit_rust.Video.Playback.{tick, check_end_of_stream}
use kalidokit_rust.Video.Session.Create.{new, new-demuxer}
use kalidokit_rust.Video.Session.Calls.{Call, calls}
use kalidokit_rust.Video.Session.Kept.{
  decode_answer-demuxer, next_packet-file, seek_to-file, show-SameStream,
}
use kalidokit_rust.Video.AnnexB.{Bytes}
use kalidokit_rust.Video.Mp4.Open.{ParsedTrack, File, Rates, Opened, create_demuxer}
use kalidokit_rust.Video.Mp4.Open.Ready.{new-track, create_demuxer-new}
use kalidokit_rust.Video.Selection.{SessionConfig}
use kalidokit_rust.Video.Session.Stable.{Stable, rewind-Stable, calls-Stable}
use kalidokit_rust.Video.Session.{
  OutputTarget, Decoder, SwVideoSession, decode_answer, decode_next_packet, after_round,
  decode_loop, rewind, decode_due, after_rewind, decode_on, decode_frame,
}

abbrev pub Returns {ℓ} : {S : Type ℓ} {A : Type ℓ} → S × Option A → Type ℓ
Returns {A = A} r = (a : A) × (r.1 ≡ some a)

Returns-if :
    {S A : Type 0} (b : Bool) (x y : S × Option A)
    → Returns x
    → Returns y
    → Returns (if b then x else y)
Returns-if true x y hx hy = hx
Returns-if false x y hx hy = hy

abbrev PrefixPositive : {D Fps : Type 0} → SwVideoSession D Fps → Type 0
PrefixPositive s = 0 < s.demuxer.nal_length_size

module _ {D Fps : Type 0} (reader : Reader) (conv : Conversions) (decode_nal : Decoder D) where
  decode_answer_total :
      (answer : Result VideoError (Option VideoPacket)) (self : SwVideoSession D Fps)
      → Returns (decode_answer reader conv decode_nal (some answer) self)
  unfolding decode_answer
  decode_answer_total (err e) self = (_, refl)
  decode_answer_total (ok none) self = (_, refl)
  decode_answer_total (ok (some packet)) self = (_, refl)

  after_round_total :
      (answer : Result VideoError Bool) (self : SwVideoSession D Fps)
      (rest : SwVideoSession D Fps × Option (Result VideoError FrameStatus))
      → Returns rest
      → Returns (after_round reader conv decode_nal (some answer) self rest)
  unfolding after_round
  after_round_total (err e) self rest h = (_, refl)
  after_round_total (ok true) self rest h = (_, refl)
  after_round_total (ok false) self rest h = Returns-if self.ended _ rest (_, refl) h

  -- The loop ends where the fuel is more than the samples that are left.
  decode_loop_total :
      (fuel : ℕ) (self : SwVideoSession D Fps)
      → 0 < self.demuxer.nal_length_size
      → length self.demuxer.samples - self.demuxer.cursor < fuel
      → Returns (decode_loop reader conv decode_nal fuel self)
  unfolding decode_loop decode_next_packet
  decode_loop_total zero self p h = absurd (omega arith)
  decode_loop_total (suc fuel) self p h =
      elim (Option-cases (get_elem? self.demuxer.samples self.demuxer.cursor)) [
        | inl e ↦
            rw (next_packet-at_end reader conv self.demuxer e, after_round, decode_answer) (_, refl)
        | inr (entry, e) ↦
            let (answer, some_answer) = next_packet_total reader conv self.demuxer p in
            let moved = record self { demuxer = (next_packet reader conv self.demuxer).0 } in
            let (result, some_result) = decode_answer_total answer moved in
            let same =
              decode_answer-demuxer reader conv decode_nal (some answer) moved
              ∙ next_packet-moves reader conv self.demuxer entry e in
            rw (some_answer, some_result)
              (after_round_total result _ _ (
                decode_loop_total fuel (decode_answer reader conv decode_nal (some answer) moved).0
                  (rw same p)
                  (rw same (
                    omega
                      (arith, lt-length_of_get self.demuxer.samples self.demuxer.cursor entry e)))))
      ]

  decode_due_total :
      (self : SwVideoSession D Fps)
      → 0 < self.demuxer.nal_length_size
      → Returns (decode_due reader conv decode_nal self)
  unfolding decode_due
  decode_due_total self p =
      Returns-if self.ended _ _ (_, refl)
        (decode_loop_total (suc (length self.demuxer.samples)) self p (omega arith))

  PrefixPositive-Stable : Stable {Fps = Fps} reader conv decode_nal PrefixPositive
  PrefixPositive-Stable = record {
    next = λ s p. rw ((next_packet-file reader conv s.demuxer).1) p;
    moved = λ s d position e p. rw ((seek_to-file reader conv s.demuxer d position e).1) p;
    fresh = λ s decoder p. p;
    timed = λ s playback p. p;
    marked = λ s ended p. p;
    shown = λ s yuv decoder bytes h p.
        rw ((show-SameStream reader conv decode_nal yuv s).demuxer_same) p;
  }

  after_rewind_total :
      (answer : Result VideoError (Unit {0})) (self : SwVideoSession D Fps)
      → 0 < self.demuxer.nal_length_size
      → Returns (after_rewind reader conv decode_nal answer self)
  unfolding after_rewind
  after_rewind_total (err e) self p = (_, refl)
  after_rewind_total (ok x) self p = decode_due_total self p

  decode_on_total :
      (created : Result String D) (self : SwVideoSession D Fps)
      → 0 < self.demuxer.nal_length_size
      → Returns (decode_on reader conv decode_nal created self)
  unfolding decode_on
  decode_on_total created self p =
      let r = rewind reader conv decode_nal created self in
      Returns-if (self.ended && self.playback.looping) _ _
        (after_rewind_total r.1 r.0 (
          rewind-Stable reader conv decode_nal PrefixPositive PrefixPositive-Stable created self p))
        (decode_due_total self p)

  pub decode_frame_total :
      (created : Result String D) (self : SwVideoSession D Fps) (dt : Duration)
      → 0 < self.demuxer.nal_length_size
      → Returns (decode_frame reader conv decode_nal created self dt)
  unfolding decode_frame
  decode_frame_total created self dt p =
      let (moved, due) = tick self.playback dt in
      let (playback, goes_on) = check_end_of_stream moved in
      Returns-if self.playback.paused _ _ (_, refl)
        (Returns-if (not due) _ _ (_, refl)
          (Returns-if (not goes_on) _ _ (_, refl)
            (decode_on_total created (record self { playback = playback }) p)))

module _ {D Fps : Type 0} (conv : Conversions) (rates : Rates Fps)
    (read_mp4 : Bytes → Result String (List ParsedTrack)) (interval_of : Fps → Option Duration)
    (decode_nal : Decoder D) where
  -- A session that `SwVideoSession::new` makes on what `create_demuxer` opens, after any calls of its
  -- methods: `decode_frame` returns, whatever the file's reads and the decoder answer.
  pub decode_frame-calls :
      (extension path : String) (file : File) (opened : Opened Fps) (output : OutputTarget)
      (config : SessionConfig) (created : Result String D) (s : SwVideoSession D Fps)
      → create_demuxer conv rates read_mp4 extension path file ≡ ok opened
      → new interval_of
          (create_demuxer conv rates read_mp4 extension path file)
          output
          config
          created
        ≡ ok s
      → (cs : List (Call D)) (again : Result String D) (dt : Duration)
      → Returns (
          decode_frame opened.reader conv decode_nal again
            (calls opened.reader conv decode_nal cs s)
            dt)
  decode_frame-calls extension path file opened output config created s is_open is_new cs again dt =
      let (_, _, _, _, track, _, ready) =
        new-track conv rates read_mp4 path file opened
          (create_demuxer-new conv rates read_mp4 extension path file opened is_open) in
      let same = new-demuxer interval_of opened output config created s (rw is_open at is_new) in
      decode_frame_total opened.reader conv decode_nal again
        (calls opened.reader conv decode_nal cs s) dt
        (calls-Stable opened.reader conv decode_nal PrefixPositive
          (PrefixPositive-Stable opened.reader conv decode_nal) cs s
          (rw same ready.prefix_positive))
