-- ===== src/Speech/Filter/Tests.antt =====
-- A segment of one sample, whose energy is the sample and whose spectrum is all voice.
use kalidokit_rust.Base.{ℕ, ◌≡◌, refl, true, false, not, some, [], ◌∷◌, List, ltb, leb, arith}
use kalidokit_rust.Speech.Filter.{
  male, child, unknown, SpeechFilterConfig, Floats, Analysis, classify_gender, analyze,
  analyze_parallel, analyze-parallel,
}

abbrev floats : Floats ℕ
floats = record { number = λ n. n; lt = ltb; le = leb }

abbrev energy : List ℕ → ℕ
energy [] = 0
energy (s ∷ audio) = s

abbrev analysis : Analysis ℕ ℕ
analysis = record {
  rms = energy;
  spectral = λ audio. record { voice_band_ratio = 1; f0_hz = 120; gender = male };
}

abbrev config : SpeechFilterConfig ℕ
config = record { rms_threshold = 200; voice_band_ratio_threshold = 1; min_audio_ms = 800 }

genders :
    (classify_gender floats 120 ≡ male)
    × (classify_gender floats 400 ≡ child)
    × (classify_gender floats 401 ≡ unknown)
unfolding classify_gender
genders = (refl, refl, refl)

loud : (analyze floats analysis config (300 ∷ [])).is_speech ≡ true
unfolding analyze
loud = refl

leb-ltb : (a b : ℕ) → leb b a ≡ not (ltb a b)
leb-ltb a b = ground arith

analyze-parallel_example :
    let serial = analyze floats analysis config (300 ∷ []) in
    let parallel =
      analyze_parallel floats analysis config (some (analysis.spectral (300 ∷ []))) (300 ∷ []) in
    (serial.is_speech ≡ parallel.is_speech) × (ltb 300 200 ≡ false → serial ≡ parallel)
analyze-parallel_example = analyze-parallel floats analysis config (300 ∷ []) leb-ltb
