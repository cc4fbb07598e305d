-- ===== src/Vrm/BlendShape/Names.antt =====
-- Which texts `BlendShapePreset::parse` (crates/vrm/src/blendshape.rs) takes, and for which preset.
use kalidokit_rust.Base.{◌≡◌, refl, ◌↔◌, some, String, All, lookup, lookup_of_names}
use kalidokit_rust.Vrm.BlendShape.{
  BlendShapePreset, blink, blink_l, blink_r, a_preset, i_preset, u_preset, e_preset, o_preset, joy,
  angry, sorrow, fun, neutral, preset_names, parse,
}

-- The name of a preset in a file.
abbrev pub preset_name : BlendShapePreset → String
preset_name blink = "blink"
preset_name blink_l = "blink_l"
preset_name blink_r = "blink_r"
preset_name a_preset = "a"
preset_name i_preset = "i"
preset_name u_preset = "u"
preset_name e_preset = "e"
preset_name o_preset = "o"
preset_name joy = "joy"
preset_name angry = "angry"
preset_name sorrow = "sorrow"
preset_name fun = "fun"
preset_name neutral = "neutral"

parse-preset_name : (b : BlendShapePreset) → parse (preset_name b) ≡ some b
unfolding parse lookup
parse-preset_name blink = refl
parse-preset_name blink_l = refl
parse-preset_name blink_r = refl
parse-preset_name a_preset = refl
parse-preset_name i_preset = refl
parse-preset_name u_preset = refl
parse-preset_name e_preset = refl
parse-preset_name o_preset = refl
parse-preset_name joy = refl
parse-preset_name angry = refl
parse-preset_name sorrow = refl
parse-preset_name fun = refl
parse-preset_name neutral = refl

names_agree : All (λ (e : String × BlendShapePreset). e.0 ≡ preset_name e.1) preset_names
names_agree = (
  refl,
  (
    refl,
    (refl, (refl, (refl, (refl, (refl, (refl, (refl, (refl, (refl, (refl, (refl, tt))))))))))),
  ),
)

-- A text is taken for a preset exactly when it is the name of that preset.
pub parse-preset_name_iff :
    (s : String) (b : BlendShapePreset) → (parse s ≡ some b) ↔ (s ≡ preset_name b)
unfolding parse
parse-preset_name_iff s b = (
  λ h. lookup_of_names preset_name preset_names s b names_agree h,
  λ e. rw e (parse-preset_name b),
)
