-- ===== src/Video/SampleTable.antt =====
-- crates/video-decoder/src/demux/mp4.rs, `build_sample_table`: the sample table of a track from its
-- run-length coded boxes. The boxes are what the crate mp4parse hands over. Offsets and times are
-- u64 and wrap; sample and chunk numbers are u32; lengths of lists in memory do not wrap.
pub mod Runs
pub mod Times
pub mod Bounds
mod Tests
use kalidokit_rust.Base.{
  ℕ, zero, suc, ◌+◌, ◌-◌, ◌%◌, ◌^◌, Bool, true, false, ◌||◌, Option, none, some, List, [], ◌∷◌,
  ◌++◌, ◌==◌, ltb, leb, if◌then◌else◌, length, get_elem?,
}
use kalidokit_rust.Base.Int.{ℤ, pos}
use kalidokit_rust.Base.Result.{Result, ok, err, ok_or, ◌>>=◌}

pub record SampleEntry : Type 0 where
  pub offset : ℕ
  pub size : ℕ
  pub dts_ticks : ℕ
  pub cts_offset : ℤ
  pub is_sync : Bool

-- `stts`: so many samples, each so long.
pub record TimeToSample : Type 0 where
  pub sample_count : ℕ
  pub sample_delta : ℕ

pub record CompositionOffset : Type 0 where
  pub sample_count : ℕ
  pub time_offset : ℤ

pub record SampleToChunk : Type 0 where
  pub first_chunk : ℕ
  pub samples_per_chunk : ℕ

pub record SampleSizes : Type 0 where
  pub sample_size : ℕ
  pub sample_sizes : List ℕ

pub record Track : Type 0 where
  pub stco : Option (List ℕ)
  pub stsz : Option SampleSizes
  pub stsc : Option (List SampleToChunk)
  pub stts : Option (List TimeToSample)
  pub stss : Option (List ℕ)
  pub ctts : Option (List CompositionOffset)

-- The boxes without which there is an error.
pub data Box : Type 0 where
  no_stco no_stsz no_stsc no_stts : Box

abbrev pub u32 : ℕ → ℕ
u32 n = n % 2 ^ 32

abbrev pub u64 : ℕ → ℕ
u64 n = n % 2 ^ 64

unfoldable pub contains : ℕ → List ℕ → Bool
contains n [] = false
contains n (m ∷ ms) = m == n || contains n ms

abbrev pub total_count : List TimeToSample → ℕ
total_count [] = 0
total_count (e ∷ es) = e.sample_count + total_count es

-- Lines 303-311: the last entry before the first that starts after the chunk.
unfoldable pub samples_in_chunk : List SampleToChunk → ℕ → ℕ → ℕ
samples_in_chunk [] chunk_1based spc = spc
samples_in_chunk (e ∷ es) chunk_1based spc =
    let rest = samples_in_chunk es chunk_1based e.samples_per_chunk in
    if leb e.first_chunk chunk_1based then rest else spc

-- The variables of the two loops.
pub record Cursor : Type 0 where
  pub samples : List SampleEntry
  pub sample_idx : ℕ
  pub dts_ticks : ℕ
  pub stts_iter : List TimeToSample
  pub stts_remaining : ℕ
  pub stts_delta : ℕ
  pub ctts_iter : List CompositionOffset
  pub ctts_remaining : ℕ
  pub ctts_offset : ℤ

unfoldable pub advance_stts : ℕ → List TimeToSample → Cursor → Cursor
advance_stts zero (e ∷ iter) c = record c {
  stts_iter = iter;
  stts_remaining = e.sample_count;
  stts_delta = e.sample_delta;
}
advance_stts _ _ c = c

unfoldable pub advance_ctts : ℕ → List CompositionOffset → Cursor → Cursor
advance_ctts zero (e ∷ iter) c = record c {
  ctts_iter = iter;
  ctts_remaining = e.sample_count;
  ctts_offset = e.time_offset;
}
advance_ctts _ _ c = c

-- Lines 363-378: the entry, and the counters after it.
unfoldable pub push : (ℕ → Bool) → ℕ → ℕ → ℕ → Cursor → Cursor
push is_sync_number chunk_offset offset_in_chunk size c = record c {
  samples =
      c.samples
      ++ record {
        offset = u64 (chunk_offset + offset_in_chunk);
        size = size;
        dts_ticks = c.dts_ticks;
        cts_offset = c.ctts_offset;
        is_sync = is_sync_number (u32 (c.sample_idx + 1));
      }
        ∷ [];
  dts_ticks = u64 (c.dts_ticks + c.stts_delta);
  stts_remaining = c.stts_remaining - 1;
  ctts_remaining = c.ctts_remaining - 1;
  sample_idx = c.sample_idx + 1;
}

-- Lines 347-378.
unfoldable pub add_sample : (ℕ → Bool) → ℕ → ℕ → ℕ → Cursor → Cursor
unfolding advance_stts advance_ctts push
add_sample is_sync_number chunk_offset offset_in_chunk size c =
    let c' = advance_stts c.stts_remaining c.stts_iter c in
    push is_sync_number chunk_offset offset_in_chunk size
      (advance_ctts c'.ctts_remaining c'.ctts_iter c')

-- Lines 339-345; `none` is the `break`.
unfoldable pub size_of : SampleSizes → ℕ → Option ℕ
size_of stsz idx =
    if ltb 0 stsz.sample_size then some stsz.sample_size else get_elem? stsz.sample_sizes idx

module _ (stsz : SampleSizes) (total_samples : ℕ) (is_sync_number : ℕ → Bool) where
  -- `for _ in 0..spc`, with what is left of it.
  unfoldable pub chunk_loop : ℕ → ℕ → ℕ → Cursor → Cursor
  chunk_loop zero chunk_offset offset_in_chunk c = c
  chunk_loop (suc left) chunk_offset offset_in_chunk c =
      if leb total_samples c.sample_idx then c else elim (size_of stsz c.sample_idx) [
        | none ↦ c
        | some size ↦
            chunk_loop left chunk_offset (u64 (offset_in_chunk + size))
              (add_sample is_sync_number chunk_offset offset_in_chunk size c)
      ]

  -- Over the chunks, from the chunk of that index on.
  unfoldable pub chunks_loop : List SampleToChunk → List ℕ → ℕ → Cursor → Cursor
  chunks_loop stsc [] chunk_idx c = c
  chunks_loop stsc (chunk_offset ∷ offsets) chunk_idx c =
      chunks_loop stsc offsets (suc chunk_idx)
        (chunk_loop (samples_in_chunk stsc (u32 (chunk_idx + 1)) 0) chunk_offset 0 c)

abbrev pub start : List TimeToSample → List CompositionOffset → Cursor
start stts ctts = record {
  samples = [];
  sample_idx = 0;
  dts_ticks = 0;
  stts_iter = stts;
  stts_remaining = 0;
  stts_delta = 0;
  ctts_iter = ctts;
  ctts_remaining = 0;
  ctts_offset = pos 0;
}

-- Lines 258-266.
unfoldable pub total_of : SampleSizes → List TimeToSample → ℕ
total_of stsz stts = if ltb 0 stsz.sample_size then total_count stts else length stsz.sample_sizes

-- `all_sync || sync_set.contains(n)`: without the box every sample is a sync sample.
unfoldable pub sync_number : Option (List ℕ) → ℕ → Bool
sync_number none n = true
sync_number (some numbers) n = contains n numbers

abbrev pub entries_or_none : Option (List CompositionOffset) → List CompositionOffset
entries_or_none none = []
entries_or_none (some es) = es

unfoldable pub build_sample_table : Track → Result Box (List SampleEntry)
build_sample_table track = do
  offsets ← ok_or track.stco no_stco
  sizes ← ok_or track.stsz no_stsz
  stsc_entries ← ok_or track.stsc no_stsc
  times ← ok_or track.stts no_stts
  ok
      (chunks_loop sizes (total_of sizes times) (sync_number track.stss) stsc_entries offsets 0
        (start times (entries_or_none track.ctts))).samples
