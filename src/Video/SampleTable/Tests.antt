-- ===== src/Video/SampleTable/Tests.antt =====
-- A track of three samples in two chunks.
use kalidokit_rust.Base.{
  ℕ, ◌≡◌, ◌≤◌, ◌<◌, take, refl, true, false, List, [], ◌∷◌, some, none, arith, length, get_elem?,
}
use kalidokit_rust.Base.Int.{negsuc}
use kalidokit_rust.Base.Result.{ok, err}
use kalidokit_rust.Video.SampleTable.{
  SampleEntry, SampleSizes, TimeToSample, Track, no_stco, u64, size_of, contains, chunk_loop,
  chunks_loop, samples_in_chunk, advance_stts, advance_ctts, push, add_sample, total_of,
  sync_number, build_sample_table,
}
use kalidokit_rust.Video.SampleTable.Bounds.{Described, build_sample_table-entries}
use kalidokit_rust.Video.SampleTable.Runs.{expand, sum}
use kalidokit_rust.Video.SampleTable.Times.{build_sample_table-times}

abbrev sizes : SampleSizes
sizes = record { sample_size = 0; sample_sizes = 10 ∷ 20 ∷ 30 ∷ [] }

abbrev times : List TimeToSample
times =
    record { sample_count = 2; sample_delta = 5 }
    ∷ record { sample_count = 1; sample_delta = 7 }
    ∷ []

abbrev track : Track
track = record {
  stco = some (100 ∷ 500 ∷ []);
  stsz = some sizes;
  stsc = some (record { first_chunk = 1; samples_per_chunk = 2 } ∷ []);
  stts = some times;
  stss = some (1 ∷ []);
  ctts = some (record { sample_count = 1; time_offset = negsuc 1 } ∷ []);
}

abbrev third : SampleEntry
third = record { offset = 500; size = 30; dts_ticks = 10; cts_offset = negsuc 1; is_sync = false }

abbrev table : List SampleEntry
table =
    record { offset = 100; size = 10; dts_ticks = 0; cts_offset = negsuc 1; is_sync = true }
    ∷ record { offset = 110; size = 20; dts_ticks = 5; cts_offset = negsuc 1; is_sync = false }
    ∷ third
    ∷ []

track-built : build_sample_table track ≡ ok table
unfolding build_sample_table chunks_loop chunk_loop samples_in_chunk size_of add_sample push
    advance_stts advance_ctts total_of sync_number contains
track-built = refl

no_offsets : build_sample_table (record track { stco = none }) ≡ err no_stco
unfolding build_sample_table
no_offsets = refl

build_sample_table-entries_example :
    (0 < sizes.sample_size → length table ≤ length (expand times))
    × (sizes.sample_size ≡ 0 → length table ≤ length sizes.sample_sizes)
    × ((k : ℕ) (s : SampleEntry) → get_elem? table k ≡ some s → Described track sizes k s)
build_sample_table-entries_example =
    build_sample_table-entries track sizes times table refl refl track-built

enough : total_of sizes times ≤ 3
unfolding total_of
enough = omega arith

build_sample_table-times_example : third.dts_ticks ≡ u64 (sum (take 2 (expand times)))
build_sample_table-times_example =
    build_sample_table-times track sizes times table refl refl (omega arith, (omega arith, tt))
      enough track-built 2 third refl
