-- ===== src/Speech/Worker/Stretch.antt =====
-- A stretch of the run of `vad_worker` (crates/speech-capture/src/lib.rs) against its stream, and two
-- stretches after each other.
use kalidokit_rust.Base.{
  Option, append_assoc, ◌≡◌, refl, sym, ap, ◌∙◌, List, [], ◌++◌, append-nil, All, All-append,
  length,
}
use kalidokit_rust.Segmenter.{SpeechEvent}
use kalidokit_rust.Segmenter.Invariant.{
  Frame, Outcome, quiet, opened, closed, step, step-Outcome, Legal, run-Legal,
}
use kalidokit_rust.Segmenter.Invariant
use kalidokit_rust.Speech.Worker.{Env, SpeechConfig, Worker}
use kalidokit_rust.Speech.Worker.Loop.{as_usize}
use kalidokit_rust.Speech.Worker.Stream.{
  Chunk, clean_of, raw_of, clean_of-append, raw_of-append, heard, heard-append,
}
use kalidokit_rust.Speech.Worker.Passes.{erase, erase-append, run-append}

-- Two stretches of a buffer, one after the other: what goes out and stays is what was there and came in.
kept-append :
    {A : Type 0} (out out' buf buf' buf'' new new' : List A)
    → out ++ buf' ≡ buf ++ new
    → out' ++ buf'' ≡ buf' ++ new'
    → (out ++ out') ++ buf'' ≡ buf ++ (new ++ new')
kept-append out out' buf buf' buf'' new new' p q =
    append_assoc out out' buf''
    ∙ ap (◌++◌ out) q
    ∙ sym (append_assoc out buf' new')
    ∙ ap (λ l. l ++ new') p
    ∙ append_assoc buf new new'

module _ {Sample Prob V N S W : Type 0} (env : Env Sample Prob V N S W)
    (config : SpeechConfig) where
  abbrev pub Sized : Chunk Sample → Type 0
  Sized c =
      (length c.samples ≡ as_usize config.hop_size)
      × (length c.raw_samples ≡ as_usize config.hop_size)

  -- A part of the worker's run in which `clean` and `raw` come in and the noise suppression ends as
  -- `quiet`. The chunks have a hop of samples each. In order, and with what is left in the buffers,
  -- they hold what was in the buffers and what came in, each sample once. The segmenter, run on what
  -- the voice detector says of them, ends as the worker's does and gives the starts and ends of
  -- segments that the worker tells of. `Times` says where their times are from.
  pub record Passed (w : Worker Sample V N S W) (noise : Option N) (clean raw : List Sample)
      (Times : List (Chunk Sample) → Type 0)
      (r : Worker Sample V N S W × List (SpeechEvent Sample Prob)) : Type 0 where
    pub chunks : List (Chunk Sample)
    pub timed : Times chunks
    pub sized : All Sized chunks
    pub clean_kept : clean_of chunks ++ r.0.reframe_buf ≡ w.reframe_buf ++ clean
    pub raw_kept : raw_of chunks ++ r.0.raw_reframe_buf ≡ w.raw_reframe_buf ++ raw
    pub noise_kept : r.0.denoiser ≡ noise
    pub all_heard : (heard env w.vad_instance chunks).0 ≡ r.0.vad_instance
    pub same_run :
        Invariant.run env.predict w.seg (heard env w.vad_instance chunks).1 ≡ (r.0.seg, erase r.1)

  pub Passed-none :
      (w : Worker Sample V N S W) (Times : List (Chunk Sample) → Type 0)
      → Times []
      → Passed w w.denoiser [] [] Times (w, [])
  unfolding Invariant.run heard clean_of raw_of
  Passed-none w Times h = record {
    chunks = [];
    timed = h;
    sized = tt;
    clean_kept = sym (append-nil w.reframe_buf);
    raw_kept = sym (append-nil w.raw_reframe_buf);
    noise_kept = refl;
    all_heard = refl;
    same_run = refl;
  }

  pub Passed-noise :
      (w : Worker Sample V N S W) (noise noise' : Option N) (Times : List (Chunk Sample) → Type 0)
      (r : Worker Sample V N S W × List (SpeechEvent Sample Prob))
      → noise ≡ noise'
      → Passed w noise [] [] Times r
      → Passed w noise' [] [] Times r
  Passed-noise w noise noise' Times r e p = record {
    chunks = p.chunks;
    timed = p.timed;
    sized = p.sized;
    clean_kept = p.clean_kept;
    raw_kept = p.raw_kept;
    noise_kept = p.noise_kept ∙ e;
    all_heard = p.all_heard;
    same_run = p.same_run;
  }

  pub Passed-append :
      (w w' w'' : Worker Sample V N S W) (noise noise' : Option N)
      (clean clean' raw raw' : List Sample) (Times Times' All_times : List (Chunk Sample) → Type 0)
      (out rest : List (SpeechEvent Sample Prob))
      → ((cs ds : List (Chunk Sample)) → Times cs → Times' ds → All_times (cs ++ ds))
      → Passed w noise clean raw Times (w', out)
      → Passed w' noise' clean' raw' Times' (w'', rest)
      → Passed w noise' (clean ++ clean') (raw ++ raw') All_times (w'', out ++ rest)
  Passed-append w w' w'' noise noise' clean clean' raw raw' Times Times' All_times out rest join p
        q =
      let said = heard-append env w.vad_instance p.chunks q.chunks in
      let first = (heard env w.vad_instance p.chunks).1 in
      record {
        chunks = p.chunks ++ q.chunks;
        timed = join p.chunks q.chunks p.timed q.timed;
        sized = All-append Sized p.chunks q.chunks p.sized q.sized;
        clean_kept =
            ap (λ l. l ++ w''.reframe_buf) (clean_of-append p.chunks q.chunks)
            ∙ kept-append (clean_of p.chunks) (clean_of q.chunks) w.reframe_buf w'.reframe_buf
                w''.reframe_buf clean clean' p.clean_kept q.clean_kept;
        raw_kept =
            ap (λ l. l ++ w''.raw_reframe_buf) (raw_of-append p.chunks q.chunks)
            ∙ kept-append (raw_of p.chunks) (raw_of q.chunks) w.raw_reframe_buf w'.raw_reframe_buf
                w''.raw_reframe_buf raw raw' p.raw_kept q.raw_kept;
        noise_kept = q.noise_kept;
        all_heard = rw (said, p.all_heard) q.all_heard;
        same_run =
            rw (said, p.all_heard)
              (run-append env.predict w.seg first (heard env w'.vad_instance q.chunks).1
                ∙ rw (p.same_run, q.same_run) (rw (erase-append out rest) refl));
      }
