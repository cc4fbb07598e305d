-- ===== src/Video/Mp4/Seeking.antt =====
-- Where `Mp4Demuxer::seek` (crates/video-decoder/src/demux/mp4.rs) sets the cursor.
use mathlib.Core.Option.{some-injective}
use kalidokit_rust.Base.{
  ℕ, zero, suc, ◌+◌, ◌≤◌, ◌<◌, ◌≡◌, refl, ap, ◌∙◌, Bool, true, false, ◌&&◌, some, List, [], ◌∷◌,
  arith, ◌⊎◌, inl, inr, Bool-cases, ltb, leb, leb→le, le→leb, ltb→lt, ne→==, if◌then◌else◌,
  get_elem?, All, All-get_elem?,
}
use kalidokit_rust.Base.Time.{Duration}
use kalidokit_rust.Base.Result.{ok}
use kalidokit_rust.Video.SampleTable.{SampleEntry}
use kalidokit_rust.Video.Mp4.{Mp4Demuxer, Conversions, seek_loop, seek_to}

-- Decode times that never go back.
abbrev pub IsSorted : List SampleEntry → Type 0
IsSorted [] = Unit
IsSorted (s ∷ rest) = All (λ t. s.dts_ticks ≤ t.dts_ticks) rest × IsSorted rest

-- A sample from which decoding can start, not after the target.
abbrev pub Eligible : List SampleEntry → ℕ → ℕ → Type 0
Eligible samples target k =
    (s : SampleEntry) × (get_elem? samples k ≡ some s) × (s.is_sync ≡ true) × (s.dts_ticks ≤ target)

-- The test of the loop is that of the first sample.
abbrev test : ℕ → SampleEntry → Bool
test target s = s.is_sync && leb s.dts_ticks target

test-Eligible :
    (target : ℕ) (s : SampleEntry) (rest : List SampleEntry)
    → test target s ≡ true
    → Eligible (s ∷ rest) target 0
test-Eligible target s rest h = (s, refl, ground arith, leb→le s.dts_ticks target (ground arith))

Eligible-test :
    (target : ℕ) (s : SampleEntry) (rest : List SampleEntry)
    → Eligible (s ∷ rest) target 0
    → test target s ≡ true
Eligible-test target s rest (t, e, y, l) =
    let same : s ≡ t = some-injective _ _ e in rw (same, y) (le→leb t.dts_ticks target l)

-- Past the target nothing is eligible.
not_Eligible :
    (target : ℕ) (s : SampleEntry) (rest : List SampleEntry)
    → IsSorted (s ∷ rest)
    → target < s.dts_ticks
    → (m : ℕ) → Eligible (s ∷ rest) target m
    → ⊥
not_Eligible target s rest h past zero (t, e, y, l) =
    let same : s.dts_ticks ≡ t.dts_ticks =
      ap (λ (x : SampleEntry). x.dts_ticks) (some-injective _ _ e) in
    omega (arith, same, l)
not_Eligible target s rest h past (suc m) (t, e, y, l) =
    let after = All-get_elem? (λ t. s.dts_ticks ≤ t.dts_ticks) rest m t h.0 e in
    omega (arith, after, l)

past_test : (target : ℕ) (s : SampleEntry) → target < s.dts_ticks → test target s ≡ false
past_test target s h = ground arith

-- What the loop gives: the last eligible one, or what was best before.
abbrev Found : ℕ → List SampleEntry → ℕ → ℕ → ℕ → Type 0
Found target samples i best r =
    ((k : ℕ) × (r ≡ i + k)
      × Eligible samples target k
      × ((m : ℕ) → Eligible samples target m → m ≤ k))
    ⊎ ((r ≡ best) × ((m : ℕ) → Eligible samples target m → ⊥))

Found-next :
    (target : ℕ) (s : SampleEntry) (rest : List SampleEntry) (i best r : ℕ)
    → Found target rest (suc i) (if test target s then i else best) r
    → Found target (s ∷ rest) i best r
Found-next target s rest i best r (inl (k, e, el, last)) =
    inl (suc k, omega (arith, e), el, shifted)
  where
    shifted : (m : ℕ) → Eligible (s ∷ rest) target m → m ≤ suc k
    shifted zero x = omega arith
    shifted (suc n) x = omega (arith, last n x)
Found-next target s rest i best r (inr (e, nothing)) = elim (Bool-cases (test target s)) [
  | inl on ↦ inl (0, (rw on at e) ∙ omega arith, test-Eligible target s rest on, only)
  | inr off ↦ inr (rw off at e, none_at off)
]
  where
    only : (m : ℕ) → Eligible (s ∷ rest) target m → m ≤ 0
    only zero x = omega arith
    only (suc n) x = absurd (nothing n x)

    none_at : test target s ≡ false → (m : ℕ) → Eligible (s ∷ rest) target m → ⊥
    none_at off zero x = let on = Eligible-test target s rest x in cc
    none_at off (suc n) x = nothing n x

seek_loop-Found :
    (target : ℕ) (samples : List SampleEntry) (i best : ℕ)
    → IsSorted samples
    → Found target samples i best (seek_loop target samples i best)
unfolding seek_loop
seek_loop-Found target [] i best h = inr (refl, λ m (s, e, _, _). cc)
seek_loop-Found target (s ∷ rest) i best h = elim (Bool-cases (ltb target s.dts_ticks)) [
  | inl past ↦ rw past (
      inr (
        rw (past_test target s (ltb→lt target s.dts_ticks past)) refl,
        not_Eligible target s rest h (ltb→lt target s.dts_ticks past),
      ))
  | inr before ↦ rw before (
      Found-next target s rest i best _
        (seek_loop-Found target rest (suc i) (if test target s then i else best) h.1))
]

-- `seek` of a demuxer whose decode times never go back: with a timescale, the
-- cursor is then at a sync sample not after the target and every sync sample not after the target is at
-- the cursor or before it, or, where there is no such sample, the cursor is at 0. Nothing else of
-- the demuxer changes.
pub seek_to-latest :
    (conv : Conversions) (self : Mp4Demuxer) (position : Duration)
    → IsSorted self.samples
    → 0 < self.timescale
    → let target = conv.to_ticks position self.timescale in
      (c : ℕ) × (seek_to conv self position ≡ ok (record self { cursor = c }))
      × ((Eligible self.samples target c × ((m : ℕ) → Eligible self.samples target m → m ≤ c))
          ⊎ ((c ≡ 0) × ((m : ℕ) → Eligible self.samples target m → ⊥)))
unfolding seek_to
seek_to-latest conv self position h p =
    let target = conv.to_ticks position self.timescale in
    let c = seek_loop target self.samples 0 0 in
    (
      c,
      rw (ne→== self.timescale 0 (λ e. omega arith)) refl,
      elim (seek_loop-Found target self.samples 0 0 h) [
        | inl (k, e, el, last) ↦ let same : c ≡ k = omega (arith, e) in inl (rw same (el, last))
        | inr x ↦ inr x
      ],
    )
