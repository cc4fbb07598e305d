-- ===== src/Video/AnnexB/Laws.antt =====
-- The Annex B conversions of crates/video-decoder/src/demux/mp4.rs against an encoder of AVCC data.
use native.Mathlib.Nat.{pow-suc}
use kalidokit_rust.Base.{
  ℕ, zero, suc, ◌+◌, ◌*◌, ◌/◌, ◌%◌, ◌^◌, ◌<◌, ◌≡◌, ◌⊎◌, inl, inr, refl, sym, ap, ◌∙◌, List, [], ◌∷◌,
  ◌++◌, Option, some, length, take, drop, leb, ltb, arith, All, concat, map, length-append,
  length-drop, append_assoc, append-nil, take-append, drop-append, leb→le, Bool-cases, le→leb,
  lt→leb, lt→ltb, le→ltb,
}
use kalidokit_rust.Video.AnnexB.{
  Bytes, start_code, be_value, avcc_loop, avcc_to_annex_b, read_sets, read_sps,
  annex_b_from_avcc_extra,
}

-- A number in `n` bytes, big-endian.
unfoldable pub be_bytes : ℕ → ℕ → Bytes
be_bytes zero v = []
be_bytes (suc n) v = be_bytes n (v / 256) ++ v % 256 ∷ []

pub length-be_bytes : (n v : ℕ) → length (be_bytes n v) ≡ n
unfolding be_bytes
length-be_bytes zero v = refl
length-be_bytes (suc n) v =
    omega (arith, length-append (be_bytes n (v / 256)) (v % 256 ∷ []), length-be_bytes n (v / 256))

be_value-snoc :
    (acc : ℕ) (xs : Bytes) (b : ℕ) → be_value acc (xs ++ b ∷ []) ≡ be_value acc xs * 256 + b
unfolding be_value
be_value-snoc acc [] b = refl
be_value-snoc acc (x ∷ xs) b = be_value-snoc (acc * 256 + x) xs b

pub be_value-be_bytes : (n v : ℕ) → v < 256 ^ n → be_value 0 (be_bytes n v) ≡ v
unfolding be_value be_bytes
be_value-be_bytes zero v h = omega arith
be_value-be_bytes (suc n) v h =
    be_value-snoc 0 (be_bytes n (v / 256)) (v % 256)
    ∙ rw (be_value-be_bytes n (v / 256) (omega (arith, pow-suc 256 n))) (omega arith)

-- A unit behind its length.
abbrev pub prefixed : ℕ → Bytes → Bytes
prefixed n nal = be_bytes n (length nal) ++ nal

abbrev pub coded : Bytes → Bytes
coded nal = start_code ++ nal

-- What ends the conversion: too few bytes for a length, or for the unit that it announces.
abbrev pub Stops : ℕ → Bytes → Type 0
Stops n tail = (length tail < n) ⊎ (length (drop n tail) < be_value 0 (take n tail))

take_of_length {ℓ} : {A : Type ℓ} (n : ℕ) (xs ys : List A) → length xs ≡ n → take n (xs ++ ys) ≡ xs
take_of_length n xs ys h = rw (← h) (take-append xs ys)

drop_of_length {ℓ} : {A : Type ℓ} (n : ℕ) (xs ys : List A) → length xs ≡ n → drop n (xs ++ ys) ≡ ys
drop_of_length n xs ys h = rw (← h) (drop-append xs ys)

-- One unit that is all there.
avcc_loop-prefixed :
    (fuel n : ℕ) (nal more out : Bytes)
    → length nal < 256 ^ n
    → avcc_loop (suc fuel) n (prefixed n nal ++ more) out
      ≡ avcc_loop fuel n more (out ++ start_code ++ nal)
unfolding avcc_loop
avcc_loop-prefixed fuel n nal more out h =
    let prefix = be_bytes n (length nal) in
    rw (append_assoc prefix nal more) (
      rw
        (
          take_of_length n prefix (nal ++ more) (length-be_bytes n (length nal)),
          drop_of_length n prefix (nal ++ more) (length-be_bytes n (length nal)),
        )
        (rw (be_value-be_bytes n (length nal) h) (
          rw
            (
              le→leb n (length (prefix ++ (nal ++ more))) (
                  omega
                    (arith, length-append prefix (nal ++ more), length-be_bytes n (length nal))),
              le→ltb (length (nal ++ more)) (length nal) (omega (arith, length-append nal more)),
            )
            (rw (take-append nal more, drop-append nal more)))))

avcc_loop-Stops :
    (fuel n : ℕ) (tail out : Bytes) → Stops n tail → avcc_loop (suc fuel) n tail out ≡ some out
unfolding avcc_loop
avcc_loop-Stops fuel n tail out (inl short) = rw (lt→leb n (length tail) short)
avcc_loop-Stops fuel n tail out (inr cut) =
    rw (lt→ltb (length (drop n tail)) (be_value 0 (take n tail)) cut) (ground arith)

avcc_loop-concat :
    (fuel n : ℕ) (nals : List Bytes) (tail out : Bytes)
    → 0 < n
    → All (λ nal. length nal < 256 ^ n) nals
    → Stops n tail
    → length (concat (map (prefixed n) nals) ++ tail) < fuel
    → avcc_loop fuel n (concat (map (prefixed n) nals) ++ tail) out
      ≡ some (out ++ concat (map coded nals))
avcc_loop-concat zero n nals tail out p a s h = absurd (omega arith)
avcc_loop-concat (suc fuel) n [] tail out p a s h =
    avcc_loop-Stops fuel n tail out s ∙ ap some (sym (append-nil out))
avcc_loop-concat (suc fuel) n (nal ∷ nals) tail out p a s h =
    let more = concat (map (prefixed n) nals) ++ tail in
    let shape = append_assoc (prefixed n nal) (concat (map (prefixed n) nals)) tail in
    ap (λ (d : Bytes). avcc_loop (suc fuel) n d out) shape
    ∙ avcc_loop-prefixed fuel n nal more out a.0
    ∙ avcc_loop-concat fuel n nals tail (out ++ start_code ++ nal) p a.1 s (
        omega (
          arith,
          ap length shape,
          length-append (prefixed n nal) more,
          length-append (be_bytes n (length nal)) nal,
          length-be_bytes n (length nal),
        ))
    ∙ ap some (
        append_assoc (out ++ start_code) nal (concat (map coded nals))
        ∙ append_assoc out start_code (nal ++ concat (map coded nals)))

-- The conversion of length-prefixed units, of a prefix of one byte or more that holds each length:
-- every unit comes out behind a start code, in order, after what was there. Bytes at the end that
-- are no whole unit are left out.
pub avcc_to_annex_b-prefixed :
    (n : ℕ) (nals : List Bytes) (tail out : Bytes)
    → 0 < n
    → All (λ nal. length nal < 256 ^ n) nals
    → Stops n tail
    → avcc_to_annex_b (concat (map (prefixed n) nals) ++ tail) n out
      ≡ some (out ++ concat (map coded nals))
unfolding avcc_to_annex_b
avcc_to_annex_b-prefixed n nals tail out p a s =
    avcc_loop-concat _ n nals tail out p a s (omega arith)

avcc_loop_total :
    (fuel n : ℕ) (rest out : Bytes)
    → 0 < n
    → length rest < fuel
    → (r : Bytes) × (avcc_loop fuel n rest out ≡ some r)
unfolding avcc_loop
avcc_loop_total zero n rest out p h = absurd (omega arith)
avcc_loop_total (suc fuel) n rest out p h = elim (Bool-cases (leb n (length rest))) [
  | inr e ↦ (out, rw e)
  | inl e ↦ elim (Bool-cases (ltb (length (drop n rest)) (be_value 0 (take n rest)))) [
    | inl c ↦ (out, rw (e, c))
    | inr c ↦
        let nal_len = be_value 0 (take n rest) in
        let (r, q) =
          avcc_loop_total fuel n (drop nal_len (drop n rest))
            (out ++ start_code ++ take nal_len (drop n rest)) p
            (omega (
              arith,
              length-drop nal_len (drop n rest),
              length-drop n rest,
              leb→le n (length rest) e,
            )) in
        (r, rw (e, c) q)
  ]
]

-- The conversion ends on every input, whatever its bytes, when the prefix has a byte.
pub avcc_to_annex_b_total :
    (data_ : Bytes) (n : ℕ) (out : Bytes)
    → 0 < n
    → (r : Bytes) × (avcc_to_annex_b data_ n out ≡ some r)
unfolding avcc_to_annex_b
avcc_to_annex_b_total data_ n out p = avcc_loop_total _ n data_ out p (omega arith)

-- A parameter set behind its length of two bytes.
read_sets-prefixed :
    (sets : List Bytes) (rest out : Bytes)
    → All (λ set. length set < 65536) sets
    → read_sets (length sets) (concat (map (prefixed 2) sets) ++ rest) out
      ≡ (out ++ concat (map coded sets), some rest)
unfolding read_sets
read_sets-prefixed [] rest out a = rw append-nil
read_sets-prefixed (set ∷ sets) rest out a =
    let prefix = be_bytes 2 (length set) in
    let more = concat (map (prefixed 2) sets) ++ rest in
    rw
      (
        append_assoc (prefix ++ set) (concat (map (prefixed 2) sets)) rest,
        append_assoc prefix set more,
      )
      (rw
        (
          take_of_length 2 prefix (set ++ more) (length-be_bytes 2 (length set)),
          drop_of_length 2 prefix (set ++ more) (length-be_bytes 2 (length set)),
        )
        (rw (be_value-be_bytes 2 (length set) (omega (arith, a.0))) (
          rw
            (
              le→ltb (length (prefix ++ (set ++ more))) 2 (
                  omega
                    (arith, length-append prefix (set ++ more), length-be_bytes 2 (length set))),
              le→ltb (length (set ++ more)) (length set) (omega (arith, length-append set more)),
            )
            (rw (take-append set more, drop-append set more)
              (read_sets-prefixed sets rest (out ++ start_code ++ set) a.1
                ∙ rw (
                  append_assoc (out ++ start_code) set (concat (map coded sets)),
                  append_assoc out start_code (set ++ concat (map coded sets)),
                ))))))

-- The AVC configuration record: a header of five bytes, the number of SPS in the low five bits of a
-- byte, the SPS, the number of PPS in a byte, the PPS, and whatever follows.
abbrev pub avcc_record : Bytes → ℕ → List Bytes → List Bytes → Bytes → Bytes
avcc_record header num_sps sps pps more =
    header
    ++ num_sps
      ∷ (concat (map (prefixed 2) sps) ++ length pps ∷ (concat (map (prefixed 2) pps) ++ more))

-- The parameter sets of a configuration record, each shorter than 2^16 bytes, behind a header of five
-- bytes and a byte whose low five bits are the number of the SPS: every SPS and then
-- every PPS comes out behind a start code, in order, after what was there, and nothing else does.
pub annex_b_from_avcc_extra-record :
    (header : Bytes) (num_sps : ℕ) (sps pps : List Bytes) (more out : Bytes)
    → length header ≡ 5
    → num_sps % 32 ≡ length sps
    → All (λ set. length set < 65536) sps
    → All (λ set. length set < 65536) pps
    → annex_b_from_avcc_extra (avcc_record header num_sps sps pps more) out
      ≡ out ++ concat (map coded sps) ++ concat (map coded pps)
unfolding annex_b_from_avcc_extra
annex_b_from_avcc_extra-record header num_sps sps pps more out h n a b =
    let pps_part = length pps ∷ (concat (map (prefixed 2) pps) ++ more) in
    let body = num_sps ∷ (concat (map (prefixed 2) sps) ++ pps_part) in
    rw
      (
        le→ltb (length (header ++ body)) 7 (
            omega (
              arith,
              length-append header body,
              length-append (concat (map (prefixed 2) sps)) pps_part,
            )),
        drop_of_length 5 header body h,
      )
      (rw
        (
          ap (λ (k : ℕ). read_sets k (concat (map (prefixed 2) sps) ++ pps_part) out) n
              ∙ read_sets-prefixed sps pps_part out a,
          read_sps,
        )
        (ap (λ (r : Bytes × Option Bytes). r.0)
          (read_sets-prefixed pps more (out ++ concat (map coded sps)) b)))
