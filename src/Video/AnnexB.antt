-- ===== src/Video/AnnexB.antt =====
-- crates/video-decoder/src/demux/mp4.rs, lines 385-462: NAL units from AVCC length prefixes to
-- Annex B start codes. A position in the input is the suffix that starts there. `nal_len << 8 | b`
-- of a byte is `nal_len * 256 + b`, without the wrap of a usize: a prefix has 1 to 4 bytes. The loop over the input takes fuel, `none` where it runs out:
-- with a prefix of no bytes the source's loop does not end.
pub mod Laws
mod Tests
use kalidokit_rust.Base.{
  ℕ, zero, suc, ◌+◌, ◌*◌, ◌%◌, List, [], ◌∷◌, ◌++◌, Option, none, some, length, take, drop, leb,
  ltb, if◌then◌else◌,
}

abbrev pub Bytes : Type 0
Bytes = List ℕ

abbrev pub start_code : Bytes
start_code = 0 ∷ 0 ∷ 0 ∷ 1 ∷ []

-- Big-endian, on top of what was read before.
unfoldable pub be_value : ℕ → Bytes → ℕ
be_value acc [] = acc
be_value acc (b ∷ bs) = be_value (acc * 256 + b) bs

unfoldable pub avcc_loop : ℕ → ℕ → Bytes → Bytes → Option Bytes
avcc_loop zero len_size rest out = none
avcc_loop (suc fuel) len_size rest out =
    let nal_len = be_value 0 (take len_size rest) in
    let body = drop len_size rest in
    let next =
      avcc_loop fuel len_size (drop nal_len body) (out ++ start_code ++ take nal_len body) in
    if leb len_size (length rest)
    then if ltb (length body) nal_len then some out else next
    else some out

unfoldable pub avcc_to_annex_b : Bytes → ℕ → Bytes → Option Bytes
avcc_to_annex_b avcc_data nal_length_size out =
    avcc_loop (suc (length avcc_data)) nal_length_size avcc_data out

-- The two loops over parameter sets: the output, and what follows, unless the function returned.
unfoldable pub read_sets : ℕ → Bytes → Bytes → Bytes × Option Bytes
read_sets zero rest out = (out, some rest)
read_sets (suc count) rest out =
    let len = be_value 0 (take 2 rest) in
    let body = drop 2 rest in
    let next = read_sets count (drop len body) (out ++ start_code ++ take len body) in
    if ltb (length rest) 2 then (out, none) else if ltb (length body) len then (out, none) else next

unfoldable pub read_pps : Bytes → Bytes → Bytes
unfolding read_sets
read_pps [] out = out
read_pps (num_pps ∷ rest) out = (read_sets num_pps rest out).0

-- The SPS loop may have returned from the function; then there is nothing more to read.
abbrev after_sps : Bytes × Option Bytes → Bytes
after_sps (out, none) = out
after_sps (out, some rest) = read_pps rest out

-- From byte 5 on, which is there since the record has 7 bytes.
unfoldable pub read_sps : Bytes → Bytes → Bytes
unfolding read_sets read_pps
read_sps [] out = out
read_sps (num_sps ∷ rest) out = after_sps (read_sets (num_sps % 32) rest out)

unfoldable pub annex_b_from_avcc_extra : Bytes → Bytes → Bytes
unfolding read_sps
annex_b_from_avcc_extra extra out =
    if ltb (length extra) 7 then out else read_sps (drop 5 extra) out
