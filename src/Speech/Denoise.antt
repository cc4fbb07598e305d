-- ===== src/Speech/Denoise.antt =====
-- crates/speech-capture/src/denoise.rs, `AudioDenoiser`. RNNoise is a parameter: a state, and what it
-- makes of a frame. The arithmetic of f32 is a parameter too. The loop takes fuel.
pub mod Framing
mod Tests
use kalidokit_rust.Base.{
  ℕ, zero, suc, Bool, true, false, List, [], ◌∷◌, ◌++◌, leb, length, take, drop, map, if◌then◌else◌,
}

abbrev pub denoise_frame : ℕ
denoise_frame = 480

abbrev pub input_chunk : ℕ
input_chunk = 160

-- A sample as a number, a third and two thirds of the way to the next, and a number as a sample.
pub record Numbers (Sample F : Type 0) : Type 0 where
  pub number : Sample → F
  pub third : F → F → F
  pub two_thirds : F → F → F
  pub clamped : F → Sample

-- What the source keeps between calls; `out_buf` is empty then.
pub record AudioDenoiser (Sample D : Type 0) : Type 0 where
  pub state : D
  pub in_buf : List Sample

module _ {Sample F D : Type 0} (numbers : Numbers Sample F)
    (process_frame : D → List F → D × List F) where
  abbrev next_or : F → List Sample → F
  next_or s0 [] = s0
  next_or s0 (s ∷ samples) = numbers.number s

  unfoldable pub upsampled : List Sample → List F
  upsampled [] = []
  upsampled (s ∷ samples) =
      let s0 = numbers.number s in
      let s1 = next_or s0 samples in
      s0 ∷ (numbers.third s0 s1 ∷ (numbers.two_thirds s0 s1 ∷ upsampled samples))

  unfoldable pub upsample_3x : List Sample → List F
  unfolding upsampled
  upsample_3x samples = take denoise_frame (upsampled samples)

  unfoldable pub downsample_3x : List F → List Sample
  downsample_3x [] = []
  downsample_3x (a ∷ []) = numbers.clamped a ∷ []
  downsample_3x (a ∷ (b ∷ [])) = numbers.clamped a ∷ []
  downsample_3x (a ∷ (b ∷ (c ∷ samples))) = numbers.clamped a ∷ downsample_3x samples

  -- The body of the loop, on a chunk.
  unfoldable pub denoise_chunk : D → List Sample → D × List Sample
  unfolding upsample_3x downsample_3x
  denoise_chunk state chunk =
      let (state', output) = process_frame state (upsample_3x chunk) in
      (state', downsample_3x output)

  -- The loop: the state, what is left of the input, and the output.
  unfoldable pub denoise_loop : ℕ → D → List Sample → D × (List Sample × List Sample)
  unfolding denoise_chunk
  denoise_loop zero state in_buf = (state, (in_buf, []))
  denoise_loop (suc fuel) state in_buf =
      let (state', denoised) = denoise_chunk state (take input_chunk in_buf) in
      let (last, (left, out)) = denoise_loop fuel state' (drop input_chunk in_buf) in
      if leb input_chunk (length in_buf)
      then (last, (left, denoised ++ out))
      else (state, (in_buf, []))

  unfoldable pub process :
      AudioDenoiser Sample D → List Sample → AudioDenoiser Sample D × List Sample
  unfolding denoise_loop
  process self samples =
      let in_buf = self.in_buf ++ samples in
      let (state, (left, out)) = denoise_loop (length in_buf) self.state in_buf in
      (record { state = state; in_buf = left }, out)
