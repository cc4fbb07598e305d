-- ===== src/Vrm/BlendShape/Tests.antt =====
-- A name, and a text that is none.
use kalidokit_rust.Base.{◌≡◌, refl, none, lookup}
use kalidokit_rust.Vrm.BlendShape.{parse}

unknown_preset : parse "BlinkL" ≡ none
unfolding parse lookup
unknown_preset = refl
