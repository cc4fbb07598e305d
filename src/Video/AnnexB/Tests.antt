-- ===== src/Video/AnnexB/Tests.antt =====
-- Conversions of concrete bytes.
use kalidokit_rust.Base.{◌≡◌, ◌++◌, refl, inl, List, [], ◌∷◌, some, none, arith, concat, map}
use kalidokit_rust.Video.AnnexB.{
  Bytes, be_value, avcc_loop, avcc_to_annex_b, annex_b_from_avcc_extra,
}
use kalidokit_rust.Video.AnnexB.Laws.{
  prefixed, coded, avcc_record, avcc_to_annex_b-prefixed, annex_b_from_avcc_extra-record,
}

abbrev units : List Bytes
units = (0x67 ∷ 0x42 ∷ []) ∷ (0x68 ∷ []) ∷ []

converted :
    avcc_to_annex_b (0 ∷ 2 ∷ 0x67 ∷ 0x42 ∷ 0 ∷ 1 ∷ 0x68 ∷ 0 ∷ 9 ∷ []) 2 []
    ≡ some (0 ∷ 0 ∷ 0 ∷ 1 ∷ 0x67 ∷ 0x42 ∷ 0 ∷ 0 ∷ 0 ∷ 1 ∷ 0x68 ∷ [])
unfolding avcc_to_annex_b avcc_loop be_value
converted = refl

no_prefix_does_not_end : avcc_to_annex_b (7 ∷ []) 0 [] ≡ none
unfolding avcc_to_annex_b avcc_loop be_value
no_prefix_does_not_end = refl

avcc_to_annex_b-prefixed_example :
    avcc_to_annex_b (concat (map (prefixed 4) units) ++ 0 ∷ 0 ∷ []) 4 (9 ∷ [])
    ≡ some ((9 ∷ []) ++ concat (map coded units))
avcc_to_annex_b-prefixed_example =
    avcc_to_annex_b-prefixed 4 units (0 ∷ 0 ∷ []) (9 ∷ []) (omega arith) (omega arith)
      (inl (omega arith))

annex_b_from_avcc_extra-record_example :
    annex_b_from_avcc_extra
      (avcc_record (1 ∷ 66 ∷ 0 ∷ 30 ∷ 255 ∷ []) 225 ((0x67 ∷ []) ∷ []) ((0x68 ∷ []) ∷ []) [])
      []
    ≡ [] ++ concat (map coded ((0x67 ∷ []) ∷ [])) ++ concat (map coded ((0x68 ∷ []) ∷ []))
annex_b_from_avcc_extra-record_example =
    annex_b_from_avcc_extra-record (1 ∷ 66 ∷ 0 ∷ 30 ∷ 255 ∷ []) 225 ((0x67 ∷ []) ∷ [])
      ((0x68 ∷ []) ∷ []) [] [] refl (omega arith) (omega arith) (omega arith)
