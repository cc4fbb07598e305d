-- ===== src/Vrm/BoneGroup/Mirror.antt =====
-- The groups of `BoneGroup::of` (crates/vrm/src/animation_player.rs) against the names of the bones:
-- the left and the right bone of a pair.
use kalidokit_rust.Base.{ℕ, ◌≡◌, refl, ap}
use kalidokit_rust.Vrm.Bone.{
  HumanoidBoneName, hips, spine, chest, upper_chest, neck, head, left_shoulder, left_upper_arm,
  left_lower_arm, left_hand, right_shoulder, right_upper_arm, right_lower_arm, right_hand,
  left_upper_leg, left_lower_leg, left_foot, left_toes, right_upper_leg, right_lower_leg,
  right_foot, right_toes, left_thumb_proximal, left_thumb_intermediate, left_thumb_distal,
  left_index_proximal, left_index_intermediate, left_index_distal, left_middle_proximal,
  left_middle_intermediate, left_middle_distal, left_ring_proximal, left_ring_intermediate,
  left_ring_distal, left_little_proximal, left_little_intermediate, left_little_distal,
  right_thumb_proximal, right_thumb_intermediate, right_thumb_distal, right_index_proximal,
  right_index_intermediate, right_index_distal, right_middle_proximal, right_middle_intermediate,
  right_middle_distal, right_ring_proximal, right_ring_intermediate, right_ring_distal,
  right_little_proximal, right_little_intermediate, right_little_distal, left_eye, right_eye, jaw,
}
use kalidokit_rust.Vrm.BoneGroup.{BlendConfig, of, find_weight, tracking_weight, weight_or_one}

-- The bone on the other side, for one that has a side.
abbrev pub mirrored : HumanoidBoneName → HumanoidBoneName
mirrored left_shoulder = right_shoulder
mirrored left_upper_arm = right_upper_arm
mirrored left_lower_arm = right_lower_arm
mirrored left_hand = right_hand
mirrored right_shoulder = left_shoulder
mirrored right_upper_arm = left_upper_arm
mirrored right_lower_arm = left_lower_arm
mirrored right_hand = left_hand
mirrored left_upper_leg = right_upper_leg
mirrored left_lower_leg = right_lower_leg
mirrored left_foot = right_foot
mirrored left_toes = right_toes
mirrored right_upper_leg = left_upper_leg
mirrored right_lower_leg = left_lower_leg
mirrored right_foot = left_foot
mirrored right_toes = left_toes
mirrored left_thumb_proximal = right_thumb_proximal
mirrored left_thumb_intermediate = right_thumb_intermediate
mirrored left_thumb_distal = right_thumb_distal
mirrored left_index_proximal = right_index_proximal
mirrored left_index_intermediate = right_index_intermediate
mirrored left_index_distal = right_index_distal
mirrored left_middle_proximal = right_middle_proximal
mirrored left_middle_intermediate = right_middle_intermediate
mirrored left_middle_distal = right_middle_distal
mirrored left_ring_proximal = right_ring_proximal
mirrored left_ring_intermediate = right_ring_intermediate
mirrored left_ring_distal = right_ring_distal
mirrored left_little_proximal = right_little_proximal
mirrored left_little_intermediate = right_little_intermediate
mirrored left_little_distal = right_little_distal
mirrored right_thumb_proximal = left_thumb_proximal
mirrored right_thumb_intermediate = left_thumb_intermediate
mirrored right_thumb_distal = left_thumb_distal
mirrored right_index_proximal = left_index_proximal
mirrored right_index_intermediate = left_index_intermediate
mirrored right_index_distal = left_index_distal
mirrored right_middle_proximal = left_middle_proximal
mirrored right_middle_intermediate = left_middle_intermediate
mirrored right_middle_distal = left_middle_distal
mirrored right_ring_proximal = left_ring_proximal
mirrored right_ring_intermediate = left_ring_intermediate
mirrored right_ring_distal = left_ring_distal
mirrored right_little_proximal = left_little_proximal
mirrored right_little_intermediate = left_little_intermediate
mirrored right_little_distal = left_little_distal
mirrored left_eye = right_eye
mirrored right_eye = left_eye
mirrored b = b

of-mirrored : (b : HumanoidBoneName) → of (mirrored b) ≡ of b
unfolding of
of-mirrored hips = refl
of-mirrored spine = refl
of-mirrored chest = refl
of-mirrored upper_chest = refl
of-mirrored neck = refl
of-mirrored head = refl
of-mirrored left_shoulder = refl
of-mirrored left_upper_arm = refl
of-mirrored left_lower_arm = refl
of-mirrored left_hand = refl
of-mirrored right_shoulder = refl
of-mirrored right_upper_arm = refl
of-mirrored right_lower_arm = refl
of-mirrored right_hand = refl
of-mirrored left_upper_leg = refl
of-mirrored left_lower_leg = refl
of-mirrored left_foot = refl
of-mirrored left_toes = refl
of-mirrored right_upper_leg = refl
of-mirrored right_lower_leg = refl
of-mirrored right_foot = refl
of-mirrored right_toes = refl
of-mirrored left_thumb_proximal = refl
of-mirrored left_thumb_intermediate = refl
of-mirrored left_thumb_distal = refl
of-mirrored left_index_proximal = refl
of-mirrored left_index_intermediate = refl
of-mirrored left_index_distal = refl
of-mirrored left_middle_proximal = refl
of-mirrored left_middle_intermediate = refl
of-mirrored left_middle_distal = refl
of-mirrored left_ring_proximal = refl
of-mirrored left_ring_intermediate = refl
of-mirrored left_ring_distal = refl
of-mirrored left_little_proximal = refl
of-mirrored left_little_intermediate = refl
of-mirrored left_little_distal = refl
of-mirrored right_thumb_proximal = refl
of-mirrored right_thumb_intermediate = refl
of-mirrored right_thumb_distal = refl
of-mirrored right_index_proximal = refl
of-mirrored right_index_intermediate = refl
of-mirrored right_index_distal = refl
of-mirrored right_middle_proximal = refl
of-mirrored right_middle_intermediate = refl
of-mirrored right_middle_distal = refl
of-mirrored right_ring_proximal = refl
of-mirrored right_ring_intermediate = refl
of-mirrored right_ring_distal = refl
of-mirrored right_little_proximal = refl
of-mirrored right_little_intermediate = refl
of-mirrored right_little_distal = refl
of-mirrored left_eye = refl
of-mirrored right_eye = refl
of-mirrored jaw = refl

-- Whatever the configuration, a bone and the bone on the other side have one tracking weight.
pub tracking_weight-mirrored :
    {Weight : Type 0} (tenths : ℕ → Weight) (self : BlendConfig Weight) (b : HumanoidBoneName)
    → tracking_weight tenths self (mirrored b) ≡ tracking_weight tenths self b
unfolding tracking_weight
tracking_weight-mirrored tenths self b =
    ap (λ g. weight_or_one tenths (find_weight g self.weights)) (of-mirrored b)
