-- ===== src/Speech/Worker/Stream.antt =====
-- The stream that `vad_worker` (crates/speech-capture/src/lib.rs) works on, described apart from its
-- buffers: what comes in, what the noise suppression makes of it, and what the voice detector says of
-- chunks.
use kalidokit_rust.Base.{
  ◌≡◌, refl, sym, ap, ◌∙◌, Option, none, some, List, [], ◌∷◌, ◌++◌, append_assoc, All, String,
}
use kalidokit_rust.Base.Time.{Duration}
use kalidokit_rust.Base.Result.{Result, ok, err}
use kalidokit_rust.Segmenter.Invariant.{Frame}
use kalidokit_rust.Speech.Worker.{VadResult, Env}
use kalidokit_rust.Speech.Worker.Loop.{Message, reset_flag, timed_out, received}

-- A chunk for the voice detector, and the samples that it was made from.
pub record Chunk (Sample : Type 0) : Type 0 where
  pub samples : List Sample
  pub raw_samples : List Sample
  pub timestamp : Duration

unfoldable pub clean_of : {Sample : Type 0} → List (Chunk Sample) → List Sample
clean_of [] = []
clean_of (c ∷ cs) = c.samples ++ clean_of cs

unfoldable pub raw_of : {Sample : Type 0} → List (Chunk Sample) → List Sample
raw_of [] = []
raw_of (c ∷ cs) = c.raw_samples ++ raw_of cs

pub clean_of-append :
    {Sample : Type 0} (cs ds : List (Chunk Sample))
    → clean_of (cs ++ ds) ≡ clean_of cs ++ clean_of ds
unfolding clean_of
clean_of-append [] ds = refl
clean_of-append (c ∷ cs) ds =
    ap (◌++◌ c.samples) (clean_of-append cs ds) ∙ sym (append_assoc c.samples _ _)

pub raw_of-append :
    {Sample : Type 0} (cs ds : List (Chunk Sample)) → raw_of (cs ++ ds) ≡ raw_of cs ++ raw_of ds
unfolding raw_of
raw_of-append [] ds = refl
raw_of-append (c ∷ cs) ds =
    ap (◌++◌ c.raw_samples) (raw_of-append cs ds) ∙ sym (append_assoc c.raw_samples _ _)

-- The samples that a message brings, and all that messages bring.
abbrev pub samples_in : {Sample : Type 0} → Message Sample → List Sample
samples_in reset_flag = []
samples_in timed_out = []
samples_in (received frame) = frame.samples

unfoldable pub all_samples : {Sample : Type 0} → List (Message Sample) → List Sample
all_samples [] = []
all_samples (m ∷ ms) = samples_in m ++ all_samples ms

-- A chunk is from the time of that message.
abbrev pub IsFrom : {Sample : Type 0} → Message Sample → Chunk Sample → Type 0
IsFrom reset_flag c = ⊥
IsFrom timed_out c = ⊥
IsFrom (received frame) c = c.timestamp ≡ frame.timestamp

-- The chunks in order, so many of each message.
unfoldable pub Stamped : {Sample : Type 0} → List (Message Sample) → List (Chunk Sample) → Type 0
Stamped [] cs = cs ≡ []
Stamped {Sample = Sample} (m ∷ ms) cs =
    (first : List (Chunk Sample)) × (rest : List (Chunk Sample)) × (cs ≡ first ++ rest)
    × All (IsFrom m) first
    × Stamped ms rest

module _ {Sample Prob V N S W : Type 0} (env : Env Sample Prob V N S W) where
  -- The samples after the noise suppression, if there is one, with its state.
  unfoldable pub quieted : Option N → List Sample → Option N × List Sample
  quieted none samples = (none, samples)
  quieted (some d) samples = let (d', denoised) = env.denoise d samples in (some d', denoised)

  unfoldable pub quieted_in : Option N → Message Sample → Option N × List Sample
  unfolding quieted
  quieted_in d reset_flag = (d, [])
  quieted_in d timed_out = (d, [])
  quieted_in d (received frame) = quieted d frame.samples

  unfoldable pub all_quieted : Option N → List (Message Sample) → Option N × List Sample
  unfolding quieted_in
  all_quieted d [] = (d, [])
  all_quieted d (m ∷ ms) =
      let (d', now) = quieted_in d m in let (d'', later) = all_quieted d' ms in (d'', now ++ later)

  -- What the detector says of a chunk is a frame for the segmenter; on an error there is none.
  abbrev pub told :
      Chunk Sample → Result String (VadResult Prob) → List (Frame Sample) → List (Frame Sample)
  told c (err e) frames = frames
  told c (ok result) frames =
      record {
        is_voice = result.is_voice;
        samples = c.samples;
        raw_samples = c.raw_samples;
        timestamp = c.timestamp;
      }
      ∷ frames

  unfoldable pub heard : V → List (Chunk Sample) → V × List (Frame Sample)
  heard v [] = (v, [])
  heard v (c ∷ cs) =
      let (v', answer) = env.process v c.samples in
      let (v'', frames) = heard v' cs in (v'', told c answer frames)

  told-append :
      (c : Chunk Sample) (answer : Result String (VadResult Prob)) (fs gs : List (Frame Sample))
      → told c answer (fs ++ gs) ≡ told c answer fs ++ gs
  told-append c (err e) fs gs = refl
  told-append c (ok result) fs gs = refl

  pub heard-append :
      (v : V) (cs ds : List (Chunk Sample))
      → let first = heard v cs in
        let second = heard first.0 ds in heard v (cs ++ ds) ≡ (second.0, first.1 ++ second.1)
  unfolding heard
  heard-append v [] ds = refl
  heard-append v (c ∷ cs) ds =
      let r = env.process v c.samples in
      let e = heard-append r.0 cs ds in
      rw e (
        ap (λ (frames : List (Frame Sample)). ((heard (heard r.0 cs).0 ds).0, frames))
          (told-append c r.1 (heard r.0 cs).1 (heard (heard r.0 cs).0 ds).1))
