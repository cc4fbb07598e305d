-- ===== src/Video/SampleTable/Bounds.antt =====
-- How many samples `build_sample_table` (crates/video-decoder/src/demux/mp4.rs) gives, and what of
-- the k-th sample does not depend on times: its size and its sync flag.
use kalidokit_rust.Base.{
  ◌%◌, ◌^◌, ◌==◌, ==→eq, ==-refl, lt→ltb, le→ltb, true, ◌↔◌, ℕ, zero, suc, ◌+◌, ◌≤◌, ◌<◌, ◌≡◌, refl,
  sym, ap, ◌∙◌, Bool, Option, none, some, List, [], ◌∷◌, ◌++◌, arith, inl, inr, Bool-cases,
  Option-cases, leb, leb→lt, length, length-append, get_elem?, get_elem?-snoc_inv,
}
use mathlib.Core.Option.{some-injective}
use kalidokit_rust.Base.Result.{ok}
use kalidokit_rust.Video.SampleTable.{
  SampleEntry, SampleSizes, SampleToChunk, TimeToSample, CompositionOffset, Cursor, Track, u32, u64,
  size_of, add_sample, chunk_loop, chunks_loop, samples_in_chunk, advance_stts, advance_ctts, start,
  total_of, sync_number, contains, build_sample_table, entries_or_none,
}
use kalidokit_rust.Video.SampleTable.Runs.{expand, length-expand}

module _ (stsz : SampleSizes) (total_samples : ℕ) (is_sync_number : ℕ → Bool) where
  -- The samples so far: one for each number below the index, none past the total, each with the
  -- size and the sync flag of its number.
  pub record IsTable (c : Cursor) : Type 0 where
    pub counted : length c.samples ≡ c.sample_idx
    pub bounded : length c.samples ≤ total_samples
    pub entries :
        (k : ℕ) (s : SampleEntry)
        → get_elem? c.samples k ≡ some s
        → (size_of stsz k ≡ some s.size) × (s.is_sync ≡ is_sync_number (u32 (k + 1)))

  advance_stts-kept :
      (n : ℕ) (iter : List TimeToSample) (c : Cursor)
      → ((advance_stts n iter c).samples ≡ c.samples)
        × ((advance_stts n iter c).sample_idx ≡ c.sample_idx)
  unfolding advance_stts
  advance_stts-kept zero [] c = (refl, refl)
  advance_stts-kept zero (e ∷ iter) c = (refl, refl)
  advance_stts-kept (suc n) iter c = (refl, refl)

  advance_ctts-kept :
      (n : ℕ) (iter : List CompositionOffset) (c : Cursor)
      → ((advance_ctts n iter c).samples ≡ c.samples)
        × ((advance_ctts n iter c).sample_idx ≡ c.sample_idx)
  unfolding advance_ctts
  advance_ctts-kept zero [] c = (refl, refl)
  advance_ctts-kept zero (e ∷ iter) c = (refl, refl)
  advance_ctts-kept (suc n) iter c = (refl, refl)

  -- A sample is added at the end, with the next number.
  add_sample-entry :
      (chunk_offset offset_in_chunk size : ℕ) (c : Cursor)
      → let c' = add_sample is_sync_number chunk_offset offset_in_chunk size c in
        (e : SampleEntry) × (c'.samples ≡ c.samples ++ e ∷ [])
        × (c'.sample_idx ≡ c.sample_idx + 1)
        × (e.size ≡ size)
        × (e.is_sync ≡ is_sync_number (u32 (c.sample_idx + 1)))
        × (e.offset ≡ u64 (chunk_offset + offset_in_chunk))
  unfolding add_sample
  add_sample-entry chunk_offset offset_in_chunk size c =
      let c1 = advance_stts c.stts_remaining c.stts_iter c in
      let c2 = advance_ctts c1.ctts_remaining c1.ctts_iter c1 in
      let (s1, i1) = advance_stts-kept c.stts_remaining c.stts_iter c in
      let (s2, i2) = advance_ctts-kept c1.ctts_remaining c1.ctts_iter c1 in
      let e : SampleEntry = record {
        offset = u64 (chunk_offset + offset_in_chunk);
        size = size;
        dts_ticks = c2.dts_ticks;
        cts_offset = c2.ctts_offset;
        is_sync = is_sync_number (u32 (c2.sample_idx + 1));
      } in
      (
        e,
        ap (λ (l : List SampleEntry). l ++ e ∷ []) (s2 ∙ s1),
        ap (λ (n : ℕ). n + 1) (i2 ∙ i1),
        refl,
        ap (λ (n : ℕ). is_sync_number (u32 (n + 1))) (i2 ∙ i1),
        refl,
      )

  add_sample-IsTable :
      (chunk_offset offset_in_chunk size : ℕ) (c : Cursor)
      → IsTable c
      → c.sample_idx < total_samples
      → size_of stsz c.sample_idx ≡ some size
      → IsTable (add_sample is_sync_number chunk_offset offset_in_chunk size c)
  add_sample-IsTable chunk_offset offset_in_chunk size c t room found =
      let (e, s, i, z, y, _) = add_sample-entry chunk_offset offset_in_chunk size c in
      let len = ap length s ∙ length-append c.samples (e ∷ []) in
      record {
        counted = omega (arith, len, i, t.counted);
        bounded = omega (arith, len, t.counted);
        entries = λ k x h.
            elim (get_elem?-snoc_inv c.samples e k x
              (ap (λ (l : List SampleEntry). get_elem? l k) (sym s) ∙ h)) [
                | inl old ↦ t.entries k x old
                | inr (at, same) ↦
                    let n : k ≡ c.sample_idx = at ∙ t.counted in
                    (
                      ap (size_of stsz) n
                          ∙ found
                          ∙ ap some (sym z ∙ ap (λ (v : SampleEntry). v.size) same),
                      ap (λ (v : SampleEntry). v.is_sync) (sym same)
                          ∙ y
                          ∙ ap (λ (m : ℕ). is_sync_number (u32 (m + 1))) (sym n),
                    )
              ];
      }

  chunk_loop-IsTable :
      (left chunk_offset offset_in_chunk : ℕ) (c : Cursor)
      → IsTable c
      → IsTable (chunk_loop stsz total_samples is_sync_number left chunk_offset offset_in_chunk c)
  unfolding chunk_loop
  chunk_loop-IsTable zero chunk_offset offset_in_chunk c t = t
  chunk_loop-IsTable (suc left) chunk_offset offset_in_chunk c t =
      elim (Bool-cases (leb total_samples c.sample_idx)) [
        | inl full ↦ rw full t
        | inr room ↦ rw room (elim (Option-cases (size_of stsz c.sample_idx)) [
          | inl e ↦ rw e t
          | inr (size, e) ↦ rw e (
              chunk_loop-IsTable left chunk_offset (u64 (offset_in_chunk + size))
                (add_sample is_sync_number chunk_offset offset_in_chunk size c)
                (add_sample-IsTable chunk_offset offset_in_chunk size c t
                  (leb→lt total_samples c.sample_idx room) e))
        ])
      ]

  chunks_loop-IsTable :
      (stsc : List SampleToChunk) (offsets : List ℕ) (chunk_idx : ℕ) (c : Cursor)
      → IsTable c
      → IsTable (chunks_loop stsz total_samples is_sync_number stsc offsets chunk_idx c)
  unfolding chunks_loop
  chunks_loop-IsTable stsc [] chunk_idx c t = t
  chunks_loop-IsTable stsc (o ∷ offsets) chunk_idx c t =
      chunks_loop-IsTable stsc offsets (suc chunk_idx) _
        (chunk_loop-IsTable (samples_in_chunk stsc (u32 (chunk_idx + 1)) 0) o 0 c t)

  start-IsTable :
      (stts : List TimeToSample) (ctts : List CompositionOffset) → IsTable (start stts ctts)
  start-IsTable stts ctts = record { counted = refl; bounded = omega arith; entries = λ k s h. cc }

-- What a table is, if there is one.
pub built :
    (stco : Option (List ℕ)) (stsz : Option SampleSizes) (stsc : Option (List SampleToChunk))
    (stts : Option (List TimeToSample)) (stss : Option (List ℕ))
    (ctts : Option (List CompositionOffset)) (table : List SampleEntry)
    → build_sample_table
        (record { stco = stco; stsz = stsz; stsc = stsc; stts = stts; stss = stss; ctts = ctts })
      ≡ ok table
    → (offsets : List ℕ) × (sizes : SampleSizes) × (entries : List SampleToChunk) × (times : List
        TimeToSample)
      × (stsz ≡ some sizes)
      × (stts ≡ some times)
      × ((chunks_loop sizes
            (total_of sizes times)
            (sync_number stss)
            entries
            offsets
            0
            (start times (entries_or_none ctts))).samples
          ≡ table)
unfolding build_sample_table
built none b c d ss ct table h = cc
built (some a) none c d ss ct table h = cc
built (some a) (some b) none d ss ct table h = cc
built (some a) (some b) (some c) none ss ct table h = cc
built (some a) (some b) (some c) (some d) ss ct table h = (a, b, c, d, refl, refl, cc)

-- The number of samples and the entries, as the code works them out.
entries-computed :
    (track : Track) (sizes : SampleSizes) (times : List TimeToSample) (table : List SampleEntry)
    → track.stsz ≡ some sizes
    → track.stts ≡ some times
    → build_sample_table track ≡ ok table
    → (length table ≤ total_of sizes times)
      × ((k : ℕ) (s : SampleEntry)
          → get_elem? table k ≡ some s
          → (size_of sizes k ≡ some s.size) × (s.is_sync ≡ sync_number track.stss (u32 (k + 1))))
entries-computed track sizes times table hz ht h =
    let (offsets, sizes', stsc, times', ez, et, e) =
      built track.stco track.stsz track.stsc track.stts track.stss track.ctts table h in
    let same : sizes' ≡ sizes = some-injective _ _ (sym ez ∙ hz) in
    let same_times : times' ≡ times = some-injective _ _ (sym et ∙ ht) in
    let t =
      chunks_loop-IsTable sizes' (total_of sizes' times') (sync_number track.stss) stsc offsets 0
        (start times' (entries_or_none track.ctts))
        (start-IsTable sizes' (total_of sizes' times') (sync_number track.stss) times' _) in
    rw (← e, ← same, ← same_times) (t.bounded, t.entries)

-- The box has that number.
abbrev pub Lists : List ℕ → ℕ → Type 0
Lists numbers n = (j : ℕ) × (get_elem? numbers j ≡ some n)

contains→Lists : (n : ℕ) (numbers : List ℕ) → contains n numbers ≡ true → Lists numbers n
unfolding contains
contains→Lists n [] h = cc
contains→Lists n (m ∷ ms) h = elim (Bool-cases (m == n)) [
  | inl e ↦ (0, ap some (==→eq m n e))
  | inr e ↦ let (j, at) = contains→Lists n ms (rw e at h) in (suc j, at)
]

Lists→contains : (n : ℕ) (numbers : List ℕ) → Lists numbers n → contains n numbers ≡ true
unfolding contains
Lists→contains n [] (j, at) = cc
Lists→contains n (m ∷ ms) (zero, at) = rw (some-injective _ _ at, ==-refl n) refl
Lists→contains n (m ∷ ms) (suc j, at) = elim (Bool-cases (m == n)) [
  | inl e ↦ rw e refl
  | inr e ↦ rw e (Lists→contains n ms (j, at))
]

-- What the boxes say of the sample of that number, from 0 on.
pub record Described (track : Track) (sizes : SampleSizes) (k : ℕ) (s : SampleEntry) : Type 0 where
  pub one_size : 0 < sizes.sample_size → s.size ≡ sizes.sample_size
  pub own_size : sizes.sample_size ≡ 0 → get_elem? sizes.sample_sizes k ≡ some s.size
  pub sync_without_box : track.stss ≡ none → s.is_sync ≡ true
  pub sync_in_box :
      (numbers : List ℕ)
      → track.stss ≡ some numbers
      → (s.is_sync ≡ true) ↔ Lists numbers ((k + 1) % 2 ^ 32)

entry-Described :
    (track : Track) (sizes : SampleSizes) (k : ℕ) (s : SampleEntry)
    → size_of sizes k ≡ some s.size
    → s.is_sync ≡ sync_number track.stss (u32 (k + 1))
    → Described track sizes k s
unfolding size_of sync_number
entry-Described track sizes k s size sync = record {
  one_size = λ h. sym (some-injective _ _ (rw (lt→ltb 0 sizes.sample_size h) at size));
  own_size = λ h. rw (le→ltb 0 sizes.sample_size (omega (arith, h))) at size;
  sync_without_box = λ h. rw h at sync;
  sync_in_box = λ numbers h.
      let found : s.is_sync ≡ contains (u32 (k + 1)) numbers = rw h at sync in
      (
        λ e. contains→Lists (u32 (k + 1)) numbers (sym found ∙ e),
        λ listed. found ∙ Lists→contains (u32 (k + 1)) numbers listed,
      );
}

-- The table of a track that has its boxes. There are no more samples than the size box has sizes, or,
-- for samples of one size, than the time box has durations when written out. The sample number k has
-- that one size, or the k-th size of the box. It is a sync sample when there is no sync box, and
-- otherwise exactly when the sync box has the number k + 1, as a u32.
pub build_sample_table-entries :
    (track : Track) (sizes : SampleSizes) (times : List TimeToSample) (table : List SampleEntry)
    → track.stsz ≡ some sizes
    → track.stts ≡ some times
    → build_sample_table track ≡ ok table
    → (0 < sizes.sample_size → length table ≤ length (expand times))
      × (sizes.sample_size ≡ 0 → length table ≤ length sizes.sample_sizes)
      × ((k : ℕ) (s : SampleEntry) → get_elem? table k ≡ some s → Described track sizes k s)
unfolding total_of
build_sample_table-entries track sizes times table hz ht h =
    let (bound, entries) = entries-computed track sizes times table hz ht h in
    (
      λ one.
          let b = rw (lt→ltb 0 sizes.sample_size one) at bound in
          omega (arith, b, length-expand times),
      λ own. rw (le→ltb 0 sizes.sample_size (omega (arith, own))) at bound,
      λ k s at. let (size, sync) = entries k s at in entry-Described track sizes k s size sync,
    )
