-- ===== src/Vrm/Bone/Tests.antt =====
-- A name, and a text that is none.
use kalidokit_rust.Base.{◌≡◌, refl, none, lookup}
use kalidokit_rust.Vrm.Bone.{parse}

unknown : parse "LeftEye" ≡ none
unfolding parse lookup
unknown = refl
