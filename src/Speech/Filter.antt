-- ===== src/Speech/Filter.antt =====
-- crates/speech-capture/src/speech_filter.rs: the decision whether a segment is speech. Numbers in
-- f32 are of any type, with their comparisons and constants; the energy of the samples and what the
-- Fourier transform finds are parameters.
mod Tests
use kalidokit_rust.Base.{
  ℕ, ◌≡◌, refl, ◌∙◌, Bool, true, false, not, ◌&&◌, Option, none, some, List, [], ◌∷◌, inl, inr,
  Bool-cases, if◌then◌else◌,
}

pub data VoiceGender : Type 0 where
  male female child unknown : VoiceGender

pub record SpeechFilterResult (F : Type 0) : Type 0 where
  pub rms : F
  pub voice_band_ratio : F
  pub is_speech : Bool
  pub f0_hz : F
  pub gender : VoiceGender

pub record SpeechFilterConfig (F : Type 0) : Type 0 where
  pub rms_threshold : F
  pub voice_band_ratio_threshold : F
  pub min_audio_ms : ℕ

pub record SpectralResult (F : Type 0) : Type 0 where
  pub voice_band_ratio : F
  pub f0_hz : F
  pub gender : VoiceGender

-- The comparisons of f32, and numbers by their value.
pub record Floats (F : Type 0) : Type 0 where
  pub number : ℕ → F
  pub lt : F → F → Bool
  pub le : F → F → Bool

-- The root mean square of samples, and `compute_spectral_features`.
pub record Analysis (F Sample : Type 0) : Type 0 where
  pub rms : List Sample → F
  pub spectral : List Sample → SpectralResult F

module _ {F : Type 0} (floats : Floats F) where
  unfoldable pub classify_gender : F → VoiceGender
  classify_gender f0_hz =
      if floats.lt f0_hz (floats.number 1)
      then unknown
      else if floats.lt f0_hz (floats.number 165)
      then male
      else if floats.lt f0_hz (floats.number 255)
      then female
      else if floats.le f0_hz (floats.number 400)
      then child
      else unknown

  abbrev pub silent : F → SpeechFilterResult F
  silent rms = record {
    rms = rms;
    voice_band_ratio = floats.number 0;
    is_speech = false;
    f0_hz = floats.number 0;
    gender = unknown;
  }

  abbrev pub heard : F → SpectralResult F → Bool → SpeechFilterResult F
  heard rms spectral is_speech = record {
    rms = rms;
    voice_band_ratio = spectral.voice_band_ratio;
    is_speech = is_speech;
    f0_hz = spectral.f0_hz;
    gender = spectral.gender;
  }

  -- What the parallel version uses where its thread panicked.
  abbrev pub no_spectrum : SpectralResult F
  no_spectrum = record {
    voice_band_ratio = floats.number 0;
    f0_hz = floats.number 0;
    gender = unknown;
  }

  abbrev joined_or_none : Option (SpectralResult F) → SpectralResult F
  joined_or_none none = no_spectrum
  joined_or_none (some found) = found

  module _ {Sample : Type 0} (analysis : Analysis F Sample) (config : SpeechFilterConfig F) where
    unfoldable pub analyze : List Sample → SpeechFilterResult F
    analyze [] = silent (floats.number 0)
    analyze (s ∷ audio) =
        let rms = analysis.rms (s ∷ audio) in
        let spectral = analysis.spectral (s ∷ audio) in
        if floats.lt rms config.rms_threshold
        then silent rms
        else heard rms spectral
            (floats.le config.voice_band_ratio_threshold spectral.voice_band_ratio)

    -- `joined` is what the thread of the transform gives, or nothing where it panicked.
    unfoldable pub analyze_parallel : Option (SpectralResult F) → List Sample → SpeechFilterResult F
    analyze_parallel joined [] = silent (floats.number 0)
    analyze_parallel joined (s ∷ audio) =
        let rms = analysis.rms (s ∷ audio) in
        let spectral = joined_or_none joined in
        heard rms spectral (
          floats.le config.rms_threshold rms
          && floats.le config.voice_band_ratio_threshold spectral.voice_band_ratio)

    -- The serial and the parallel analysis agree on whether a segment is speech, and on all of the
    -- result where the energy is not below the threshold. The thread did not panic, and one of two
    -- numbers is below the other exactly if the other is not at most it.
    pub analyze-parallel :
        (audio : List Sample)
        → ((a b : F) → floats.le b a ≡ not (floats.lt a b))
        → let serial = analyze audio in
          let parallel = analyze_parallel (some (analysis.spectral audio)) audio in
          (serial.is_speech ≡ parallel.is_speech)
          × (floats.lt (analysis.rms audio) config.rms_threshold ≡ false → serial ≡ parallel)
    unfolding analyze analyze_parallel
    analyze-parallel [] total = (refl, λ _. refl)
    analyze-parallel (s ∷ audio) total =
        elim (Bool-cases (floats.lt (analysis.rms (s ∷ audio)) config.rms_threshold)) [
          | inl low ↦
              (rw (total (analysis.rms (s ∷ audio)) config.rms_threshold) (rw low refl), λ h. cc)
          | inr high ↦ (
            rw (total (analysis.rms (s ∷ audio)) config.rms_threshold) (rw high refl),
            λ _. rw (total (analysis.rms (s ∷ audio)) config.rms_threshold) (rw high refl),
          )
        ]
