-- ===== src/Vrm/BoneGroup.antt =====
-- crates/vrm/src/animation_player.rs, lines 8-98: bone groups and the tracking weight of a bone. A
-- weight, an f32, is of any type; the weights that the source writes are an argument, in tenths.
pub mod Mirror
mod Tests
use kalidokit_rust.Base.{ℕ, Bool, true, false, Option, none, some, List, [], ◌∷◌, if◌then◌else◌}
use kalidokit_rust.Vrm.Bone.{
  HumanoidBoneName, hips, spine, chest, upper_chest, neck, head, left_shoulder, left_upper_arm,
  left_lower_arm, left_hand, right_shoulder, right_upper_arm, right_lower_arm, right_hand,
  left_upper_leg, left_lower_leg, left_foot, left_toes, right_upper_leg, right_lower_leg,
  right_foot, right_toes, left_thumb_proximal, left_thumb_intermediate, left_thumb_distal,
  left_index_proximal, left_index_intermediate, left_index_distal, left_middle_proximal,
  left_middle_intermediate, left_middle_distal, left_ring_proximal, left_ring_intermediate,
  left_ring_distal, left_little_proximal, left_little_intermediate, left_little_distal,
  right_thumb_proximal, right_thumb_intermediate, right_thumb_distal, right_index_proximal,
  right_index_intermediate, right_index_distal, right_middle_proximal, right_middle_intermediate,
  right_middle_distal, right_ring_proximal, right_ring_intermediate, right_ring_distal,
  right_little_proximal, right_little_intermediate, right_little_distal, left_eye, right_eye, jaw,
}

pub data BoneGroup : Type 0 where
  head_group torso arms fingers lower_body : BoneGroup

unfoldable pub of : HumanoidBoneName → BoneGroup
of hips = lower_body
of spine = torso
of chest = torso
of upper_chest = torso
of neck = head_group
of head = head_group
of left_shoulder = arms
of left_upper_arm = arms
of left_lower_arm = arms
of left_hand = arms
of right_shoulder = arms
of right_upper_arm = arms
of right_lower_arm = arms
of right_hand = arms
of left_upper_leg = lower_body
of left_lower_leg = lower_body
of left_foot = lower_body
of left_toes = lower_body
of right_upper_leg = lower_body
of right_lower_leg = lower_body
of right_foot = lower_body
of right_toes = lower_body
of left_thumb_proximal = fingers
of left_thumb_intermediate = fingers
of left_thumb_distal = fingers
of left_index_proximal = fingers
of left_index_intermediate = fingers
of left_index_distal = fingers
of left_middle_proximal = fingers
of left_middle_intermediate = fingers
of left_middle_distal = fingers
of left_ring_proximal = fingers
of left_ring_intermediate = fingers
of left_ring_distal = fingers
of left_little_proximal = fingers
of left_little_intermediate = fingers
of left_little_distal = fingers
of right_thumb_proximal = fingers
of right_thumb_intermediate = fingers
of right_thumb_distal = fingers
of right_index_proximal = fingers
of right_index_intermediate = fingers
of right_index_distal = fingers
of right_middle_proximal = fingers
of right_middle_intermediate = fingers
of right_middle_distal = fingers
of right_ring_proximal = fingers
of right_ring_intermediate = fingers
of right_ring_distal = fingers
of right_little_proximal = fingers
of right_little_intermediate = fingers
of right_little_distal = fingers
of left_eye = head_group
of right_eye = head_group
of jaw = head_group

abbrev pub same_group : BoneGroup → BoneGroup → Bool
same_group head_group head_group = true
same_group torso torso = true
same_group arms arms = true
same_group fingers fingers = true
same_group lower_body lower_body = true
same_group _ _ = false

-- A hash map of weights as an association list.
pub record BlendConfig (Weight : Type 0) : Type 0 where
  pub weights : List (BoneGroup × Weight)

unfoldable pub find_weight :
    {Weight : Type 0} → BoneGroup → List (BoneGroup × Weight) → Option Weight
find_weight g [] = none
find_weight g ((h, w) ∷ rest) = if same_group h g then some w else find_weight g rest

module _ {Weight : Type 0} (tenths : ℕ → Weight) where
  unfoldable pub default_config : BlendConfig Weight
  default_config = record {
    weights =
        (head_group, tenths 8)
        ∷ (torso, tenths 6)
        ∷ (arms, tenths 7)
        ∷ (fingers, tenths 9)
        ∷ (lower_body, tenths 1)
        ∷ [];
  }

  -- 1.0 for a group that is not configured.
  abbrev pub weight_or_one : Option Weight → Weight
  weight_or_one none = tenths 10
  weight_or_one (some w) = w

  unfoldable pub tracking_weight : BlendConfig Weight → HumanoidBoneName → Weight
  unfolding of find_weight
  tracking_weight self bone = weight_or_one (find_weight (of bone) self.weights)
