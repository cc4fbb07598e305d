-- ===== src/Video/SampleTable/Times.antt =====
-- Decode times of `build_sample_table` (crates/video-decoder/src/demux/mp4.rs) against the time box
-- written out: one duration for each sample.
use mathlib.Core.Option.{some-injective}
use kalidokit_rust.Base.{
  ℕ, zero, suc, ◌+◌, ◌-◌, ◌≤◌, ◌<◌, ◌≡◌, refl, sym, ap, ◌∙◌, Bool, some, List, [], ◌∷◌, ◌++◌, arith,
  inl, inr, Bool-cases, Option-cases, leb, leb→lt, length, length-append, get_elem?,
  get_elem?-snoc_inv, take, take-append, append_assoc,
}
use kalidokit_rust.Base.Result.{ok}
use kalidokit_rust.Video.SampleTable.{
  SampleEntry, SampleSizes, SampleToChunk, TimeToSample, CompositionOffset, Cursor, Track, u32, u64,
  size_of, push, add_sample, chunk_loop, chunks_loop, samples_in_chunk, advance_stts, advance_ctts,
  start, total_of, total_count, sync_number, build_sample_table, entries_or_none,
}
use kalidokit_rust.Video.SampleTable.Bounds.{built}
use kalidokit_rust.Video.SampleTable.Runs.{
  replicate, expand, sum, sum-snoc, length-expand, NoEmptyRun, first_of_run,
}

-- The durations that the cursor has before it.
abbrev pending : Cursor → List ℕ
pending c = replicate c.stts_remaining c.stts_delta ++ expand c.stts_iter

module _ (times : List TimeToSample) where
  record IsTimed (c : Cursor) : Type 0 where
    used : List ℕ
    split : expand times ≡ used ++ pending c
    counted : length used ≡ c.sample_idx
    clock : c.dts_ticks ≡ u64 (sum used)
    runs : NoEmptyRun c.stts_iter
    entries :
        (k : ℕ) (s : SampleEntry)
        → get_elem? c.samples k ≡ some s
        → s.dts_ticks ≡ u64 (sum (take k (expand times)))
    indexed : length c.samples ≡ c.sample_idx

  -- After `advance_stts` a run is open, and nothing is lost.
  advance_stts-run :
      (n : ℕ) (iter : List TimeToSample) (c : Cursor) {d : ℕ} {ds : List ℕ}
      → c.stts_remaining ≡ n
      → c.stts_iter ≡ iter
      → NoEmptyRun iter
      → replicate n c.stts_delta ++ expand iter ≡ d ∷ ds
      → let c' = advance_stts n iter c in
        (r : ℕ) × (c'.stts_remaining ≡ suc r)
        × (c'.stts_delta ≡ d)
        × (replicate r d ++ expand c'.stts_iter ≡ ds)
        × NoEmptyRun c'.stts_iter
        × (c'.dts_ticks ≡ c.dts_ticks)
        × (c'.samples ≡ c.samples)
        × (c'.sample_idx ≡ c.sample_idx)
  unfolding advance_stts expand replicate
  advance_stts-run zero [] c hn hi runs h = cc
  advance_stts-run zero (e ∷ iter) c hn hi runs h =
      let (r, count, delta, rest) =
        first_of_run e.sample_count e.sample_delta (expand iter) runs.0 h in
      (r, count, delta, rest, runs.1, refl, refl, refl)
  advance_stts-run (suc n) iter c {d} hn hi runs h =
      let (r, count, delta, rest) =
        first_of_run (suc n) c.stts_delta (expand iter) (omega arith) h in
      (
        r,
        hn ∙ count,
        delta,
        ap (λ (l : List TimeToSample). replicate r d ++ expand l) hi ∙ rest,
        rw hi runs,
        refl,
        refl,
        refl,
      )

  -- The other half of a step leaves the times alone.
  advance_ctts-times :
      (n : ℕ) (iter : List CompositionOffset) (c : Cursor)
      → let c' = advance_ctts n iter c in
        (c'.stts_remaining ≡ c.stts_remaining)
        × (c'.stts_delta ≡ c.stts_delta)
        × (c'.stts_iter ≡ c.stts_iter)
        × (c'.dts_ticks ≡ c.dts_ticks)
        × (c'.samples ≡ c.samples)
        × (c'.sample_idx ≡ c.sample_idx)
  unfolding advance_ctts
  advance_ctts-times zero [] c = (refl, refl, refl, refl, refl, refl)
  advance_ctts-times zero (e ∷ iter) c = (refl, refl, refl, refl, refl, refl)
  advance_ctts-times (suc n) iter c = (refl, refl, refl, refl, refl, refl)

  push-IsTimed :
      (isn : ℕ → Bool) (co oc size r d : ℕ) (ds : List ℕ) (c b : Cursor)
      → (t : IsTimed c) → b.stts_remaining ≡ suc r
      → b.stts_delta ≡ d
      → replicate r d ++ expand b.stts_iter ≡ ds
      → NoEmptyRun b.stts_iter
      → b.dts_ticks ≡ c.dts_ticks
      → b.samples ≡ c.samples
      → b.sample_idx ≡ c.sample_idx
      → pending c ≡ d ∷ ds
      → IsTimed (push isn co oc size b)
  unfolding push
  push-IsTimed isn co oc size r d ds c b t hr hd hp runs hc hs hi next = record {
    used = t.used ++ d ∷ [];
    split =
        t.split
        ∙ ap (λ (l : List ℕ). t.used ++ l) next
        ∙ sym (append_assoc t.used (d ∷ []) ds)
        ∙ ap (λ (l : List ℕ). (t.used ++ d ∷ []) ++ l) (sym after);
    counted = omega (arith, length-append t.used (d ∷ []), t.counted, hi);
    clock = omega (arith, hc, hd, t.clock, sum-snoc t.used d);
    runs = runs;
    entries = λ k x h. elim (get_elem?-snoc_inv b.samples _ k x h) [
      | inl old ↦ t.entries k x (ap (λ (l : List SampleEntry). get_elem? l k) (sym hs) ∙ old)
      | inr (at, same) ↦
          ap (λ (v : SampleEntry). v.dts_ticks) (sym same)
          ∙ hc
          ∙ t.clock
          ∙ ap (λ (l : List ℕ). u64 (sum l))
              (sym (upto k (at ∙ ap length hs ∙ t.indexed ∙ sym t.counted)))
    ];
    indexed = omega (arith, length-append b.samples (_ ∷ []), ap length hs, t.indexed, hi);
  }
    where
      after : replicate (b.stts_remaining - 1) b.stts_delta ++ expand b.stts_iter ≡ ds
      after = rw (hr, hd) (ap (λ (n : ℕ). replicate n d ++ expand b.stts_iter) (omega arith) ∙ hp)

      upto : (k : ℕ) → k ≡ length t.used → take k (expand times) ≡ t.used
      upto k e = rw (e, t.split) (take-append t.used (pending c))

  uncons : (xs : List ℕ) → 0 < length xs → (d : ℕ) × (ds : List ℕ) × (xs ≡ d ∷ ds)
  uncons [] h = absurd (omega arith)
  uncons (x ∷ xs) h = (x, xs, refl)

  add_sample-IsTimed :
      (isn : ℕ → Bool) (co oc size : ℕ) (c : Cursor)
      → IsTimed c
      → c.sample_idx < total_count times
      → IsTimed (add_sample isn co oc size c)
  unfolding add_sample
  add_sample-IsTimed isn co oc size c t room =
      let left : 0 < length (pending c) = omega (
        arith,
        ap length t.split,
        length-append t.used (pending c),
        t.counted,
        length-expand times,
      ) in
      let (d, ds, next) = uncons (pending c) left in
      let a = advance_stts c.stts_remaining c.stts_iter c in
      let (r, hr, hd, hp, runs, hc, hs, hi) =
        advance_stts-run c.stts_remaining c.stts_iter c refl refl t.runs next in
      let (kr, kd, kl, kc, ks, ki) = advance_ctts-times a.ctts_remaining a.ctts_iter a in
      push-IsTimed isn co oc size r d ds c (advance_ctts a.ctts_remaining a.ctts_iter a) t (kr ∙ hr)
        (kd ∙ hd) (ap (λ (l : List TimeToSample). replicate r d ++ expand l) kl ∙ hp) (rw kl runs)
        (kc ∙ hc) (ks ∙ hs) (ki ∙ hi) next

  module _ (stsz : SampleSizes) (total_samples : ℕ) (isn : ℕ → Bool)
      (enough : total_samples ≤ total_count times) where
    chunk_loop-IsTimed :
        (left co oc : ℕ) (c : Cursor)
        → IsTimed c
        → IsTimed (chunk_loop stsz total_samples isn left co oc c)
    unfolding chunk_loop
    chunk_loop-IsTimed zero co oc c t = t
    chunk_loop-IsTimed (suc left) co oc c t = elim (Bool-cases (leb total_samples c.sample_idx)) [
      | inl full ↦ rw full t
      | inr room ↦ rw room (elim (Option-cases (size_of stsz c.sample_idx)) [
        | inl e ↦ rw e t
        | inr (size, e) ↦ rw e (
            chunk_loop-IsTimed left co (u64 (oc + size)) (add_sample isn co oc size c) (
              add_sample-IsTimed isn co oc size c t
                (omega (arith, leb→lt total_samples c.sample_idx room))))
      ])
    ]

    chunks_loop-IsTimed :
        (stsc : List SampleToChunk) (offsets : List ℕ) (chunk_idx : ℕ) (c : Cursor)
        → IsTimed c
        → IsTimed (chunks_loop stsz total_samples isn stsc offsets chunk_idx c)
    unfolding chunks_loop
    chunks_loop-IsTimed stsc [] chunk_idx c t = t
    chunks_loop-IsTimed stsc (o ∷ offsets) chunk_idx c t =
        chunks_loop-IsTimed stsc offsets (suc chunk_idx) _
          (chunk_loop-IsTimed (samples_in_chunk stsc (u32 (chunk_idx + 1)) 0) o 0 c t)

  start-IsTimed : (ctts : List CompositionOffset) → NoEmptyRun times → IsTimed (start times ctts)
  unfolding replicate sum
  start-IsTimed ctts runs = record {
    used = [];
    split = refl;
    counted = refl;
    clock = refl;
    runs = runs;
    entries = λ k s h. cc;
    indexed = refl;
  }

-- Decode times. Where no run of the time box is empty and the box has a duration for every sample,
-- the decode time of the sample number k is the sum of the durations of the samples before it, as a
-- u64.
pub build_sample_table-times :
    (track : Track) (sizes : SampleSizes) (times : List TimeToSample) (table : List SampleEntry)
    → track.stsz ≡ some sizes
    → track.stts ≡ some times
    → NoEmptyRun times
    → total_of sizes times ≤ total_count times
    → build_sample_table track ≡ ok table
    → (k : ℕ) (s : SampleEntry) → get_elem? table k ≡ some s
    → s.dts_ticks ≡ u64 (sum (take k (expand times)))
build_sample_table-times track sizes times table hz ht runs enough h =
    let (offsets, sizes', stsc, times', ez, et, e) =
      built track.stco track.stsz track.stsc track.stts track.stss track.ctts table h in
    let same : sizes' ≡ sizes = some-injective _ _ (sym ez ∙ hz) in
    let same_times : times' ≡ times = some-injective _ _ (sym et ∙ ht) in
    let t =
      chunks_loop-IsTimed times sizes (total_of sizes times) (sync_number track.stss) enough stsc
        offsets 0 (start times (entries_or_none track.ctts))
        (start-IsTimed times (entries_or_none track.ctts) runs) in
    λ k s at.
      t.entries k s
        (ap (λ (l : List SampleEntry). get_elem? l k) (rw (← same, ← same_times) e) ∙ at)
