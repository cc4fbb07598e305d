-- ===== src/Video/Mp4/Packets.antt =====
-- What `Mp4Demuxer` (crates/video-decoder/src/demux/mp4.rs) hands out: which packet each call of
-- `next_packet` gives, its bytes and its presentation time, and the prefix length of a track.
use kalidokit_rust.Base.{
  ℕ, zero, suc, ◌+◌, ◌-◌, ◌^◌, ◌%◌, ◌≤◌, ◌<◌, ◌≡◌, refl, ap, ◌∙◌, Bool, true, false, ◌&&◌, Option,
  none, some, List, [], ◌∷◌, ◌++◌, map, concat, All, arith, inl, inr, Option-cases, ltb, lt→ltb,
  le→ltb, length, length-append, get_elem?, if◌then◌else◌,
}
use kalidokit_rust.Base.Int.{ℤ, pos, negsuc, pos_part, neg_part, ◌+ℤ◌}
use kalidokit_rust.Base.Result.{Result, ok, err, Result-cases, ok-injective, err-ne_ok}
use kalidokit_rust.Video.AnnexB.{Bytes, annex_b_from_avcc_extra}
use kalidokit_rust.Video.AnnexB.Laws.{
  prefixed, coded, avcc_record, Stops, avcc_to_annex_b-prefixed, avcc_to_annex_b_total,
  annex_b_from_avcc_extra-record,
}
use kalidokit_rust.Video.SampleTable.{SampleEntry, u64}
use kalidokit_rust.Video.Types.{VideoError}
use kalidokit_rust.Video.Mp4.{
  Description, video, not_video, VideoStreamInfo, codec_of, nal_length, extract_video_info,
  Mp4Demuxer, VideoPacket, as_i64, wrap_i64, pts_ticks, Reader, Conversions, read_sample,
  packet_data, make_packet, packet_of, next_packet,
}

nal_length-bounds :
    (config : Option Bytes) → (0 < (nal_length config).1) × ((nal_length config).1 ≤ 4)
unfolding nal_length
nal_length-bounds none = (omega arith, omega arith)
nal_length-bounds (some bytes) = elim (Option-cases (get_elem? bytes 4)) [
  | inl e ↦ rw (e, nal_length) (omega arith, omega arith)
  | inr (b, e) ↦ rw (e, nal_length) (omega arith, omega arith)
]

-- The prefix length that `extract_video_info` finds is from 1 to 4.
pub extract_video_info-nal_length :
    (descs : List Description) (info : VideoStreamInfo)
    → extract_video_info descs ≡ ok info
    → (0 < info.nal_length_size) × (info.nal_length_size ≤ 4)
unfolding extract_video_info
extract_video_info-nal_length [] info h = cc
extract_video_info-nal_length (not_video ∷ descs) info h =
    extract_video_info-nal_length descs info h
extract_video_info-nal_length (video ve ∷ descs) info h =
    elim (Result-cases (codec_of ve.codec_type)) [
      | inl (codec, e) ↦
          rw (← ok-injective (rw (e, extract_video_info) at h)) (nal_length-bounds ve.avc_config)
      | inr (x, e) ↦ absurd (err-ne_ok (rw (e, extract_video_info) at h))
    ]

get_elem?-none_add {ℓ} :
    {A : Type ℓ} (xs : List A) (i k : ℕ) → get_elem? xs i ≡ none → get_elem? xs (i + k) ≡ none
get_elem?-none_add [] i k h = refl
get_elem?-none_add (x ∷ xs) zero k h = cc
get_elem?-none_add (x ∷ xs) (suc i) k h =
    let e : suc i + k ≡ suc (i + k) = omega arith in
    ap (get_elem? (x ∷ xs)) e ∙ get_elem?-none_add xs i k h

module _ (reader : Reader) (conv : Conversions) where
  -- The demuxer after that many calls of `next_packet`.
  pub after_calls : ℕ → Mp4Demuxer → Mp4Demuxer
  after_calls zero self = self
  after_calls (suc k) self = after_calls k (next_packet reader conv self).0

  -- What a call is to return for a sample, or for none.
  abbrev pub answer :
      Mp4Demuxer → Option SampleEntry → Option (Result VideoError (Option VideoPacket))
  answer self none = some (ok none)
  answer self (some entry) = packet_of reader conv self entry

  next_packet-answer :
      (self : Mp4Demuxer) (o : Option SampleEntry)
      → get_elem? self.samples self.cursor ≡ o
      → (next_packet reader conv self).1 ≡ answer self o
  unfolding next_packet
  next_packet-answer self none h = rw (h, next_packet) refl
  next_packet-answer self (some entry) h = rw (h, next_packet) refl

  pub next_packet-at_end :
      (self : Mp4Demuxer)
      → get_elem? self.samples self.cursor ≡ none
      → next_packet reader conv self ≡ (self, some (ok none))
  unfolding next_packet
  next_packet-at_end self h = rw (h, next_packet) refl

  pub next_packet-moves :
      (self : Mp4Demuxer) (entry : SampleEntry)
      → get_elem? self.samples self.cursor ≡ some entry
      → (next_packet reader conv self).0 ≡ record self { cursor = self.cursor + 1 }
  unfolding next_packet
  next_packet-moves self entry h = rw (h, next_packet) refl

  answer-cursor :
      (self : Mp4Demuxer) (c : ℕ) (o : Option SampleEntry)
      → answer (record self { cursor = c }) o ≡ answer self o
  unfolding packet_of
  answer-cursor self c none = refl
  answer-cursor self c (some entry) = refl

  -- The calls of `next_packet` of a demuxer, whatever their results: the k-th after the next handles
  -- the sample k places after the cursor, and says that there are no more packets when there is no
  -- such sample.
  pub next_packet-in_order :
      (k : ℕ) (self : Mp4Demuxer)
      → (next_packet reader conv (after_calls k self)).1
        ≡ answer self (get_elem? self.samples (self.cursor + k))
  unfolding after_calls
  next_packet-in_order zero self =
      next_packet-answer self _ (ap (get_elem? self.samples) (omega arith))
  next_packet-in_order (suc k) self = elim (Option-cases (get_elem? self.samples self.cursor)) [
    | inl e ↦
        rw
          (ap (λ (r : Mp4Demuxer × Option (Result VideoError (Option VideoPacket))). r.0)
            (next_packet-at_end self e))
          (next_packet-in_order k self
            ∙ rw
                (
                  get_elem?-none_add self.samples self.cursor k e,
                  get_elem?-none_add self.samples self.cursor (suc k) e,
                )
                refl)
    | inr (entry, e) ↦ rw (next_packet-moves self entry e) (
        next_packet-in_order k (record self { cursor = self.cursor + 1 })
        ∙ answer-cursor self (self.cursor + 1) _
        ∙ ap (λ (n : ℕ). answer self (get_elem? self.samples n)) (omega arith))
  ]

-- The bytes of a packet, from a configuration record and a sample of length-prefixed units: a sync
-- sample's packet is the parameter sets and then the units, any other's is the units, every one
-- behind a start code. The record has five bytes before its number of parameter sets, whose low
-- five bits are that number; each set is shorter than 2^16 bytes; the prefix has a byte or more and
-- holds each length. The sample may end with bytes that are no whole unit, which are left out.
pub packet_data-units :
    (is_sync : Bool) (n : ℕ) (header : Bytes) (num_sps : ℕ) (sps pps : List Bytes) (more : Bytes)
    (nals : List Bytes) (tail : Bytes)
    → 0 < n
    → length header ≡ 5
    → num_sps % 32 ≡ length sps
    → All (λ set. length set < 65536) sps
    → All (λ set. length set < 65536) pps
    → All (λ nal. length nal < 256 ^ n) nals
    → Stops n tail
    → packet_data
        (avcc_record header num_sps sps pps more)
        n
        is_sync
        (concat (map (prefixed n) nals) ++ tail)
      ≡ some (
          (if is_sync then concat (map coded sps) ++ concat (map coded pps) else [])
          ++ concat (map coded nals))
unfolding packet_data
packet_data-units false n header num_sps sps pps more nals tail p h c a b d s =
    avcc_to_annex_b-prefixed n nals tail [] p d s
packet_data-units true n header num_sps sps pps more nals tail p h c a b d s =
    rw
      (lt→ltb 0 (length (avcc_record header num_sps sps pps more)) (
        omega (
          arith,
          length-append header (
              num_sps
              ∷ (concat (map (prefixed 2) sps)
                  ++ length pps ∷ (concat (map (prefixed 2) pps) ++ more))),
        )))
      (rw (annex_b_from_avcc_extra-record header num_sps sps pps more [] h c a b)
        (avcc_to_annex_b-prefixed n nals tail _ p d s))

packet_of_total :
    (reader : Reader) (conv : Conversions) (self : Mp4Demuxer) (entry : SampleEntry)
    → 0 < self.nal_length_size
    → (r : Result VideoError (Option VideoPacket)) × (packet_of reader conv self entry ≡ some r)
unfolding packet_of packet_data
packet_of_total reader conv self entry p = elim (Result-cases (read_sample reader entry)) [
  | inl (raw, e) ↦
      let (annex_b, h) =
        avcc_to_annex_b_total raw self.nal_length_size
          (if entry.is_sync && ltb 0 (length self.extra_data)
            then annex_b_from_avcc_extra self.extra_data []
            else [])
          p in
      (
        ok (some (make_packet conv self.timescale entry annex_b)),
        rw (e, packet_of) (rw (h, packet_data) refl),
      )
  | inr (x, e) ↦ (err x, rw (e, packet_of) refl)
]

-- A call of `next_packet` returns, where the prefix length is from 1 on.
pub next_packet_total :
    (reader : Reader) (conv : Conversions) (self : Mp4Demuxer)
    → 0 < self.nal_length_size
    → (r : Result VideoError (Option VideoPacket)) × ((next_packet reader conv self).1 ≡ some r)
next_packet_total reader conv self p = elim (Option-cases (get_elem? self.samples self.cursor)) [
  | inl e ↦ (ok none, next_packet-answer reader conv self none e)
  | inr (entry, e) ↦
      let (r, h) = packet_of_total reader conv self entry p in
      (r, next_packet-answer reader conv self (some entry) e ∙ h)
]

as_i64-small : (n : ℕ) → n < 2 ^ 63 → as_i64 n ≡ pos n
unfolding as_i64
as_i64-small n h = rw (lt→ltb n (2 ^ 63) h) refl

wrap_i64-pos_part :
    (z : ℤ) → pos_part z < 2 ^ 63 → neg_part z < 2 ^ 63 → pos_part (wrap_i64 z) ≡ pos_part z
unfolding wrap_i64
wrap_i64-pos_part (pos n) a b = let e : u64 n ≡ n = omega arith in rw e (rw (as_i64-small n a) refl)
wrap_i64-pos_part (negsuc n) a b =
    let e : u64 n ≡ n = omega arith in
    rw e (rw (le→ltb (2 ^ 64 - 1 - n) (2 ^ 63) (omega arith), as_i64) refl)

-- The presentation time of a sample, in ticks: its decode time moved by its offset, and 0 where that
-- is before 0. Decode time and offset are below 2^62.
pub pts_ticks-sum :
    (dts : ℕ) (cts : ℤ)
    → dts < 2 ^ 62
    → pos_part cts < 2 ^ 62
    → neg_part cts < 2 ^ 62
    → pts_ticks dts cts ≡ dts + pos_part cts - neg_part cts
unfolding pts_ticks ◌+ℤ◌
pts_ticks-sum dts (pos n) h a b =
    rw (as_i64-small dts (omega arith))
      (wrap_i64-pos_part (pos dts +ℤ pos n) (ground arith) (ground arith) ∙ ground arith)
pts_ticks-sum dts (negsuc n) h a b =
    rw (as_i64-small dts (omega arith))
      (wrap_i64-pos_part (pos dts +ℤ negsuc n) (ground arith) (ground arith) ∙ ground arith)
