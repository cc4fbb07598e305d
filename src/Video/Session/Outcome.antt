-- ===== src/Video/Session/Outcome.antt =====
-- What the calls of `decode_frame` of a looping `SwVideoSession`
-- (crates/video-decoder/src/backend/software.rs) come to.
use kalidokit_rust.Base.{
  ◌+◌, ℕ, zero, suc, ◌≤◌, ◌≡◌, ◌≢◌, refl, ◌∙◌, ap, sym, Bool, true, false, not, ◌&&◌, Option, none,
  some, String, arith, inl, inr, Bool-cases, if_elim, le→leb, length, if◌then◌else◌,
}
use kalidokit_rust.Base.Time.{Duration, saturating_add, max_duration}
use kalidokit_rust.Base.Result.{Result, ok, err, Result-cases}
use kalidokit_rust.Video.Types.{VideoError, FrameStatus, new_frame, waiting, end_of_stream}
use kalidokit_rust.Video.Mp4.{Reader, Conversions, next_packet, seek_to}
use kalidokit_rust.Video.Playback.{PlaybackState, tick, check_end_of_stream}
use kalidokit_rust.Video.Session.{
  Decoder, SwVideoSession, decode_answer, decode_next_packet, at_end, after_round, decode_loop,
  renew, rewind, decode_due, after_rewind, decode_on, decode_frame,
}
use kalidokit_rust.Video.Session.Kept.{decode_answer-playback}

-- What a call of `decode_frame` may come to, where the clock stands at `playback` after it.
pub data Outcome {D Fps : Type 0} (playback : PlaybackState Fps)
    (r : SwVideoSession D Fps × Option (Result VideoError FrameStatus)) : Type 0 where
  framed : r.1 ≡ some (ok new_frame) → Outcome playback r
  failed : (e : VideoError) → r.1 ≡ some (err e) → Outcome playback r
  exhausted :
      r.1 ≡ some (ok waiting) → r.0.ended ≡ true → r.0.playback ≡ playback → Outcome playback r
  no_return : r.1 ≡ none → Outcome playback r

pub true-ne_false : Path Bool true false → ⊥
true-ne_false h = cc

pub both_false : (a b : Bool) → (a && b) ≡ false → b ≡ true → a ≡ false
both_false false b h e = refl
both_false true b h e = absurd (true-ne_false (sym e ∙ h))

module _ {Fps : Type 0} where
  -- The clock after a call.
  pub clock : PlaybackState Fps → Duration → PlaybackState Fps
  clock playback dt = (check_end_of_stream (tick playback dt).0).0

  pub tick-due :
      (p : PlaybackState Fps) (dt : Duration)
      → p.paused ≡ false
      → p.frame_interval ≤ p.elapsed_since_frame + dt
      → p.frame_interval ≤ max_duration
      → (tick p dt).1 ≡ true
  unfolding tick
  tick-due p dt on due small =
      rw (on, le→leb p.frame_interval (saturating_add p.elapsed_since_frame dt) (omega arith)) refl

  -- The settings, which the clock does not change.
  abbrev pub Settings : PlaybackState Fps → PlaybackState Fps → Type 0
  Settings p q =
      (q.looping ≡ p.looping) × (q.paused ≡ p.paused) × (q.frame_interval ≡ p.frame_interval)

  Settings-if :
      {A : Type 0} (b : Bool) (p : PlaybackState Fps) (x y : PlaybackState Fps × A)
      → Settings p x.0
      → Settings p y.0
      → Settings p (if b then x else y).0
  Settings-if true p x y hx hy = hx
  Settings-if false p x y hx hy = hy

  tick-Settings : (p : PlaybackState Fps) (dt : Duration) → Settings p (tick p dt).0
  unfolding tick
  tick-Settings p dt =
      Settings-if p.paused p _ _ (refl, refl, refl)
        (Settings-if _ p _ _ (refl, refl, refl) (refl, refl, refl))

  check-Settings : (p : PlaybackState Fps) → Settings p (check_end_of_stream p).0
  unfolding check_end_of_stream
  check-Settings p =
      Settings-if _ p _ _ (Settings-if p.looping p _ _ (refl, refl, refl) (refl, refl, refl))
        (refl, refl, refl)

  pub clock-Settings : (p : PlaybackState Fps) (dt : Duration) → Settings p (clock p dt)
  unfolding clock
  clock-Settings p dt =
      let (l, o, i) = tick-Settings p dt in
      let (l', o', i') = check-Settings (tick p dt).0 in (l' ∙ l, o' ∙ o, i' ∙ i)

  goes_on : (p : PlaybackState Fps) → p.looping ≡ true → (check_end_of_stream p).1 ≡ true
  unfolding check_end_of_stream
  goes_on p loops = rw loops (ground arith)

module _ {D Fps : Type 0} (reader : Reader) (conv : Conversions) (decode_nal : Decoder D) where
  after_round-Outcome :
      (answer : Option (Result VideoError Bool)) (self : SwVideoSession D Fps)
      (rest : SwVideoSession D Fps × Option (Result VideoError FrameStatus))
      → self.playback.looping ≡ true
      → Outcome self.playback rest
      → Outcome self.playback (after_round reader conv decode_nal answer self rest)
  unfolding after_round at_end
  after_round-Outcome none self rest loops h = no_return refl
  after_round-Outcome (some (err e)) self rest loops h = failed e refl
  after_round-Outcome (some (ok true)) self rest loops h = framed refl
  after_round-Outcome (some (ok false)) self rest loops h = elim (Bool-cases self.ended) [
    | inl e ↦ rw (loops, e) (exhausted refl refl refl)
    | inr e ↦ rw e h
  ]

  decode_loop-Outcome :
      (fuel : ℕ) (self : SwVideoSession D Fps)
      → self.playback.looping ≡ true
      → Outcome self.playback (decode_loop reader conv decode_nal fuel self)
  unfolding decode_loop decode_next_packet
  decode_loop-Outcome zero self loops = no_return refl
  decode_loop-Outcome (suc fuel) self loops =
      let d = next_packet reader conv self.demuxer in
      let moved = record self { demuxer = d.0 } in
      let s' = (decode_answer reader conv decode_nal d.1 moved).0 in
      let same = decode_answer-playback reader conv decode_nal d.1 moved in
      let outcome =
        after_round-Outcome (decode_answer reader conv decode_nal d.1 moved).1 s'
          (decode_loop reader conv decode_nal fuel s') (rw same loops)
          (decode_loop-Outcome fuel s' (rw same loops)) in
      rw same at outcome

  decode_due-Outcome :
      (self : SwVideoSession D Fps)
      → self.playback.looping ≡ true
      → self.ended ≡ false
      → Outcome self.playback (decode_due reader conv decode_nal self)
  unfolding decode_due
  decode_due-Outcome self loops going =
      if_elim (Outcome self.playback) self.ended _ _ (λ e. absurd (true-ne_false (sym e ∙ going)))
        (λ e. decode_loop-Outcome (suc (length self.demuxer.samples)) self loops)

  rewound-Outcome :
      (created : Result String D) (self : SwVideoSession D Fps)
      → self.playback.looping ≡ true
      → let r = renew reader conv decode_nal created self in
        Outcome self.playback (after_rewind reader conv decode_nal r.1 r.0)
  unfolding renew after_rewind
  rewound-Outcome (ok decoder) self loops =
      decode_due-Outcome (record self { decoder = decoder; ended = false }) loops refl
  rewound-Outcome (err e) self loops = failed _ refl

  rewind-Outcome :
      (created : Result String D) (self : SwVideoSession D Fps)
      → self.playback.looping ≡ true
      → let r = rewind reader conv decode_nal created self in
        Outcome self.playback (after_rewind reader conv decode_nal r.1 r.0)
  unfolding rewind after_rewind
  rewind-Outcome created self loops = elim (Result-cases (seek_to conv self.demuxer 0)) [
    | inl (d, h) ↦ rw (h, rewind) (rewound-Outcome created (record self { demuxer = d }) loops)
    | inr (x, h) ↦ rw (h, rewind) (failed x refl)
  ]

  decode_on-Outcome :
      (created : Result String D) (self : SwVideoSession D Fps)
      → self.playback.looping ≡ true
      → Outcome self.playback (decode_on reader conv decode_nal created self)
  unfolding decode_on
  decode_on-Outcome created self loops =
      if_elim (Outcome self.playback) (self.ended && self.playback.looping) _ _
        (λ e. rewind-Outcome created self loops)
        (λ e. decode_due-Outcome self loops (both_false self.ended self.playback.looping e loops))

  -- A call that is due, of a session that loops.
  pub decode_frame-due :
      (created : Result String D) (self : SwVideoSession D Fps) (dt : Duration)
      → self.playback.looping ≡ true
      → self.playback.paused ≡ false
      → (tick self.playback dt).1 ≡ true
      → decode_frame reader conv decode_nal created self dt
        ≡ decode_on reader conv decode_nal created
            (record self { playback = clock self.playback dt })
  unfolding decode_frame clock
  decode_frame-due created self dt loops on due =
      let t = tick self.playback dt in
      let same = (tick-Settings self.playback dt).0 ∙ loops in
      let Goal : SwVideoSession D Fps × Option (Result VideoError FrameStatus) → Type 0 = λ r.
        r
        ≡ decode_on reader conv decode_nal created
            (record self { playback = (check_end_of_stream t.0).0 }) in
      if_elim Goal self.playback.paused _ _ (λ e. absurd (true-ne_false (sym e ∙ on)))
        (λ e.
          if_elim Goal (not t.1) _ _ (λ e. absurd (true-ne_false (sym e ∙ ap not due)))
            (λ e.
              if_elim Goal (not (check_end_of_stream t.0).1) _ _
                (λ e. absurd (true-ne_false (sym e ∙ ap not (goes_on t.0 same)))) (λ e. refl)))

  pub decode_frame-Outcome :
      (created : Result String D) (self : SwVideoSession D Fps) (dt : Duration)
      → self.playback.looping ≡ true
      → self.playback.paused ≡ false
      → (tick self.playback dt).1 ≡ true
      → Outcome (clock self.playback dt) (decode_frame reader conv decode_nal created self dt)
  decode_frame-Outcome created self dt loops on due =
      rw (decode_frame-due created self dt loops on due) (
        decode_on-Outcome created (record self { playback = clock self.playback dt })
          ((clock-Settings self.playback dt).0 ∙ loops))

  pub Outcome-goes_on :
      (playback : PlaybackState Fps)
      (r : SwVideoSession D Fps × Option (Result VideoError FrameStatus))
      → Outcome playback r
      → r.1 ≢ some (ok end_of_stream)
  Outcome-goes_on playback r (framed h) e = cc
  Outcome-goes_on playback r (failed x h) e = cc
  Outcome-goes_on playback r (exhausted h _ _) e = cc
  Outcome-goes_on playback r (no_return h) e = cc
