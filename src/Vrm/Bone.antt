-- ===== src/Vrm/Bone.antt =====
-- crates/vrm/src/bone.rs, `HumanoidBoneName`, and its names.
pub mod Names
mod Tests
use kalidokit_rust.Base.{Option, List, [], ◌∷◌, String, lookup}

pub data HumanoidBoneName : Type 0 where
  hips spine chest upper_chest neck : HumanoidBoneName
  head left_shoulder left_upper_arm left_lower_arm left_hand : HumanoidBoneName
  right_shoulder right_upper_arm right_lower_arm right_hand left_upper_leg : HumanoidBoneName
  left_lower_leg left_foot left_toes right_upper_leg right_lower_leg : HumanoidBoneName
  right_foot right_toes left_thumb_proximal left_thumb_intermediate left_thumb_distal :
      HumanoidBoneName
  left_index_proximal left_index_intermediate left_index_distal left_middle_proximal
        left_middle_intermediate :
      HumanoidBoneName
  left_middle_distal left_ring_proximal left_ring_intermediate left_ring_distal
        left_little_proximal :
      HumanoidBoneName
  left_little_intermediate left_little_distal right_thumb_proximal right_thumb_intermediate
        right_thumb_distal :
      HumanoidBoneName
  right_index_proximal right_index_intermediate right_index_distal right_middle_proximal
        right_middle_intermediate :
      HumanoidBoneName
  right_middle_distal right_ring_proximal right_ring_intermediate right_ring_distal
        right_little_proximal :
      HumanoidBoneName
  right_little_intermediate right_little_distal left_eye right_eye jaw : HumanoidBoneName

-- The cases of the match, in order.
abbrev pub bone_names : List (String × HumanoidBoneName)
bone_names =
    ("hips", hips)
    ∷ ("spine", spine)
    ∷ ("chest", chest)
    ∷ ("upperChest", upper_chest)
    ∷ ("neck", neck)
    ∷ ("head", head)
    ∷ ("leftShoulder", left_shoulder)
    ∷ ("leftUpperArm", left_upper_arm)
    ∷ ("leftLowerArm", left_lower_arm)
    ∷ ("leftHand", left_hand)
    ∷ ("rightShoulder", right_shoulder)
    ∷ ("rightUpperArm", right_upper_arm)
    ∷ ("rightLowerArm", right_lower_arm)
    ∷ ("rightHand", right_hand)
    ∷ ("leftUpperLeg", left_upper_leg)
    ∷ ("leftLowerLeg", left_lower_leg)
    ∷ ("leftFoot", left_foot)
    ∷ ("leftToes", left_toes)
    ∷ ("rightUpperLeg", right_upper_leg)
    ∷ ("rightLowerLeg", right_lower_leg)
    ∷ ("rightFoot", right_foot)
    ∷ ("rightToes", right_toes)
    ∷ ("leftThumbProximal", left_thumb_proximal)
    ∷ ("leftThumbIntermediate", left_thumb_intermediate)
    ∷ ("leftThumbDistal", left_thumb_distal)
    ∷ ("leftIndexProximal", left_index_proximal)
    ∷ ("leftIndexIntermediate", left_index_intermediate)
    ∷ ("leftIndexDistal", left_index_distal)
    ∷ ("leftMiddleProximal", left_middle_proximal)
    ∷ ("leftMiddleIntermediate", left_middle_intermediate)
    ∷ ("leftMiddleDistal", left_middle_distal)
    ∷ ("leftRingProximal", left_ring_proximal)
    ∷ ("leftRingIntermediate", left_ring_intermediate)
    ∷ ("leftRingDistal", left_ring_distal)
    ∷ ("leftLittleProximal", left_little_proximal)
    ∷ ("leftLittleIntermediate", left_little_intermediate)
    ∷ ("leftLittleDistal", left_little_distal)
    ∷ ("rightThumbProximal", right_thumb_proximal)
    ∷ ("rightThumbIntermediate", right_thumb_intermediate)
    ∷ ("rightThumbDistal", right_thumb_distal)
    ∷ ("rightIndexProximal", right_index_proximal)
    ∷ ("rightIndexIntermediate", right_index_intermediate)
    ∷ ("rightIndexDistal", right_index_distal)
    ∷ ("rightMiddleProximal", right_middle_proximal)
    ∷ ("rightMiddleIntermediate", right_middle_intermediate)
    ∷ ("rightMiddleDistal", right_middle_distal)
    ∷ ("rightRingProximal", right_ring_proximal)
    ∷ ("rightRingIntermediate", right_ring_intermediate)
    ∷ ("rightRingDistal", right_ring_distal)
    ∷ ("rightLittleProximal", right_little_proximal)
    ∷ ("rightLittleIntermediate", right_little_intermediate)
    ∷ ("rightLittleDistal", right_little_distal)
    ∷ ("leftEye", left_eye)
    ∷ ("rightEye", right_eye)
    ∷ ("jaw", jaw)
    ∷ []

unfoldable pub parse : String → Option HumanoidBoneName
unfolding lookup
parse s = lookup s bone_names
