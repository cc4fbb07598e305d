-- ===== src/Vrm/BlendShape.antt =====
-- crates/vrm/src/blendshape.rs, `BlendShapePreset`, and its names.
pub mod Names
mod Tests
use kalidokit_rust.Base.{Option, List, [], ◌∷◌, String, lookup}

pub data BlendShapePreset : Type 0 where
  blink blink_l blink_r a_preset i_preset : BlendShapePreset
  u_preset e_preset o_preset joy angry : BlendShapePreset
  sorrow fun neutral : BlendShapePreset

-- The cases of the match, in order.
abbrev pub preset_names : List (String × BlendShapePreset)
preset_names =
    ("blink", blink)
    ∷ ("blink_l", blink_l)
    ∷ ("blink_r", blink_r)
    ∷ ("a", a_preset)
    ∷ ("i", i_preset)
    ∷ ("u", u_preset)
    ∷ ("e", e_preset)
    ∷ ("o", o_preset)
    ∷ ("joy", joy)
    ∷ ("angry", angry)
    ∷ ("sorrow", sorrow)
    ∷ ("fun", fun)
    ∷ ("neutral", neutral)
    ∷ []

unfoldable pub parse : String → Option BlendShapePreset
unfolding lookup
parse s = lookup s preset_names
