-- ===== src/GoPlugin/Protocol/Versions.antt =====
-- `parse_version_list` after `encode_version_list` (crates/go-plugin/src/protocol.rs).
use kalidokit_rust.Base.{ℕ, ◌<◌, ◌^◌, ◌≡◌, ◌≢◌, refl, ◌∙◌, ap, true, List, [], ◌∷◌, map, All}
use kalidokit_rust.Base.Text.{Text}
use kalidokit_rust.Base.Result.{ok}
use kalidokit_rust.GoPlugin.Digits.{
  is_digit, to_string, show-digits, show-ne_nil, parse_u32, parse_u32-to_string,
}
use kalidokit_rust.GoPlugin.Fields.{
  IsField, Starts, Ends, split, join, split-join, trim, trim-kept, trim_start, trim_end,
}
use kalidokit_rust.GoPlugin.Protocol.{encode_version_list, read_versions, parse_version_list}
use kalidokit_rust.GoPlugin.Protocol.RoundTrip.{digit-IsField, digit_is_no_blank}

digits-Starts_alone : (s : Text) → s ≢ [] → All (λ c. is_digit c ≡ true) s → Starts s
digits-Starts_alone [] h a = absurd (h refl)
digits-Starts_alone (c ∷ s) h a = digit_is_no_blank c a.0

digits-Ends : (s : Text) → s ≢ [] → All (λ c. is_digit c ≡ true) s → Ends s
digits-Ends [] h a = absurd (h refl)
digits-Ends (c ∷ []) h a = digit_is_no_blank c a.0
digits-Ends (c ∷ d ∷ s) h a = digits-Ends (d ∷ s) (λ e. cc) a.1

trim-to_string : (n : ℕ) → trim (to_string n) ≡ to_string n
trim-to_string n =
    trim-kept (to_string n) (digits-Starts_alone (to_string n) (show-ne_nil 9 n) (show-digits 10 n))
      (digits-Ends (to_string n) (show-ne_nil 9 n) (show-digits 10 n))

read_versions-map :
    (vs : List ℕ) → All (λ v. v < 2 ^ 32) vs → read_versions (map (λ v. to_string v) vs) ≡ vs
unfolding read_versions
read_versions-map [] h = refl
read_versions-map (v ∷ vs) h =
    let read : parse_u32 (trim (to_string v)) ≡ ok v =
      ap parse_u32 (trim-to_string v) ∙ parse_u32-to_string v h.0 in
    rw (read, read_versions) (ap (◌∷◌ v) (read_versions-map vs h.1))

map-IsField : (vs : List ℕ) → All (IsField b',') (map (λ v. to_string v) vs)
map-IsField [] = tt
map-IsField (v ∷ vs) = (digit-IsField b',' (to_string v) refl (show-digits 10 v), map-IsField vs)

no_versions : read_versions (split b',' (join b',' [])) ≡ []
unfolding read_versions split join trim trim_start trim_end parse_u32
no_versions = refl

-- A list of u32 versions, the empty one included, is read back from its text.
pub parse_version_list-encode :
    (versions : List ℕ)
    → All (λ v. v < 2 ^ 32) versions
    → parse_version_list (encode_version_list versions) ≡ versions
unfolding parse_version_list encode_version_list
parse_version_list-encode [] h = no_versions
parse_version_list-encode (v ∷ vs) h =
    rw (split-join b',' (map (λ w. to_string w) (v ∷ vs)) (λ e. cc) (map-IsField (v ∷ vs)))
      (read_versions-map (v ∷ vs) h)
