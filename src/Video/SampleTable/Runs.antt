-- ===== src/Video/SampleTable/Runs.antt =====
-- The time box of a track (crates/video-decoder/src/demux/mp4.rs) written out: one duration for each
-- sample, in place of runs.
use kalidokit_rust.Base.{
  ℕ, zero, suc, ◌+◌, ◌<◌, ◌≡◌, refl, ap, List, [], ◌∷◌, ◌++◌, arith, length, length-append, All,
}
use kalidokit_rust.Video.SampleTable.{TimeToSample, total_count}

unfoldable pub replicate : ℕ → ℕ → List ℕ
replicate zero x = []
replicate (suc n) x = x ∷ replicate n x

-- The duration of each sample.
unfoldable pub expand : List TimeToSample → List ℕ
unfolding replicate
expand [] = []
expand (e ∷ es) = replicate e.sample_count e.sample_delta ++ expand es

unfoldable pub sum : List ℕ → ℕ
sum [] = 0
sum (x ∷ xs) = x + sum xs

pub sum-snoc : (xs : List ℕ) (x : ℕ) → sum (xs ++ x ∷ []) ≡ sum xs + x
unfolding sum
sum-snoc [] x = omega arith
sum-snoc (y ∷ xs) x = omega (arith, sum-snoc xs x)

length-replicate : (n x : ℕ) → length (replicate n x) ≡ n
unfolding replicate
length-replicate zero x = refl
length-replicate (suc n) x = ap suc (length-replicate n x)

pub length-expand : (es : List TimeToSample) → length (expand es) ≡ total_count es
unfolding expand
length-expand [] = refl
length-expand (e ∷ es) = omega (
  arith,
  length-append (replicate e.sample_count e.sample_delta) (expand es),
  length-replicate e.sample_count e.sample_delta,
  length-expand es,
)

-- No run is empty.
abbrev pub NoEmptyRun : List TimeToSample → Type 0
NoEmptyRun = All (λ e. 0 < e.sample_count)

-- A run that is not empty starts the list.
pub first_of_run :
    (n x : ℕ) (xs : List ℕ) {d : ℕ} {ds : List ℕ}
    → 0 < n
    → replicate n x ++ xs ≡ d ∷ ds
    → (r : ℕ) × (n ≡ suc r) × (x ≡ d) × (replicate r d ++ xs ≡ ds)
unfolding replicate
first_of_run zero x xs p h = absurd (omega arith)
first_of_run (suc n) x xs {d} {ds} p h = (n, refl, same, rw (← same) tail)
  where
    same : x ≡ d
    same = cc h

    tail : replicate n x ++ xs ≡ ds
    tail = cc h
