-- ===== src/Speech/Denoise/Tests.antt =====
-- A frame that comes back as it is, counted.
use kalidokit_rust.Base.{ℕ, zero, suc, ◌+◌, ◌≡◌, refl, List, [], ◌∷◌, ◌++◌}
use kalidokit_rust.Speech.Denoise.{
  Numbers, AudioDenoiser, upsampled, upsample_3x, downsample_3x, process,
}
use kalidokit_rust.Speech.Denoise.Framing.{process-append}

abbrev numbers : Numbers ℕ ℕ
numbers = record { number = λ n. n; third = λ a b. a; two_thirds = λ a b. b; clamped = λ n. n }

abbrev count : ℕ → List ℕ → ℕ × List ℕ
count frames samples = (frames + 1, samples)

abbrev repeat : ℕ → List ℕ
repeat zero = []
repeat (suc n) = 5 ∷ repeat n

abbrev fresh : AudioDenoiser ℕ ℕ
fresh = record { state = 0; in_buf = [] }

ups_and_downs : downsample_3x numbers count (upsample_3x numbers count (1 ∷ 2 ∷ [])) ≡ 1 ∷ 2 ∷ []
unfolding upsample_3x upsampled downsample_3x
ups_and_downs = refl

-- 100 samples wait; with 70 more there is a chunk, and 10 wait.
abbrev second : AudioDenoiser ℕ ℕ × List ℕ
second = process numbers count (process numbers count fresh (repeat 100)).0 (repeat 70)

process-append_example :
    process numbers count fresh (repeat 100 ++ repeat 70)
    ≡ (second.0, (process numbers count fresh (repeat 100)).1 ++ second.1)
process-append_example = process-append numbers count fresh (repeat 100) (repeat 70)
