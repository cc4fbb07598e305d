-- ===== src/Vrm/Bone/Names.antt =====
-- Which texts `HumanoidBoneName::parse` (crates/vrm/src/bone.rs) takes, and for which bone.
use kalidokit_rust.Base.{◌≡◌, refl, ◌↔◌, some, String, All, lookup, lookup_of_names}
use kalidokit_rust.Vrm.Bone.{
  HumanoidBoneName, hips, spine, chest, upper_chest, neck, head, left_shoulder, left_upper_arm,
  left_lower_arm, left_hand, right_shoulder, right_upper_arm, right_lower_arm, right_hand,
  left_upper_leg, left_lower_leg, left_foot, left_toes, right_upper_leg, right_lower_leg,
  right_foot, right_toes, left_thumb_proximal, left_thumb_intermediate, left_thumb_distal,
  left_index_proximal, left_index_intermediate, left_index_distal, left_middle_proximal,
  left_middle_intermediate, left_middle_distal, left_ring_proximal, left_ring_intermediate,
  left_ring_distal, left_little_proximal, left_little_intermediate, left_little_distal,
  right_thumb_proximal, right_thumb_intermediate, right_thumb_distal, right_index_proximal,
  right_index_intermediate, right_index_distal, right_middle_proximal, right_middle_intermediate,
  right_middle_distal, right_ring_proximal, right_ring_intermediate, right_ring_distal,
  right_little_proximal, right_little_intermediate, right_little_distal, left_eye, right_eye, jaw,
  bone_names, parse,
}

-- The name of a bone in a file.
abbrev pub name : HumanoidBoneName → String
name hips = "hips"
name spine = "spine"
name chest = "chest"
name upper_chest = "upperChest"
name neck = "neck"
name head = "head"
name left_shoulder = "leftShoulder"
name left_upper_arm = "leftUpperArm"
name left_lower_arm = "leftLowerArm"
name left_hand = "leftHand"
name right_shoulder = "rightShoulder"
name right_upper_arm = "rightUpperArm"
name right_lower_arm = "rightLowerArm"
name right_hand = "rightHand"
name left_upper_leg = "leftUpperLeg"
name left_lower_leg = "leftLowerLeg"
name left_foot = "leftFoot"
name left_toes = "leftToes"
name right_upper_leg = "rightUpperLeg"
name right_lower_leg = "rightLowerLeg"
name right_foot = "rightFoot"
name right_toes = "rightToes"
name left_thumb_proximal = "leftThumbProximal"
name left_thumb_intermediate = "leftThumbIntermediate"
name left_thumb_distal = "leftThumbDistal"
name left_index_proximal = "leftIndexProximal"
name left_index_intermediate = "leftIndexIntermediate"
name left_index_distal = "leftIndexDistal"
name left_middle_proximal = "leftMiddleProximal"
name left_middle_intermediate = "leftMiddleIntermediate"
name left_middle_distal = "leftMiddleDistal"
name left_ring_proximal = "leftRingProximal"
name left_ring_intermediate = "leftRingIntermediate"
name left_ring_distal = "leftRingDistal"
name left_little_proximal = "leftLittleProximal"
name left_little_intermediate = "leftLittleIntermediate"
name left_little_distal = "leftLittleDistal"
name right_thumb_proximal = "rightThumbProximal"
name right_thumb_intermediate = "rightThumbIntermediate"
name right_thumb_distal = "rightThumbDistal"
name right_index_proximal = "rightIndexProximal"
name right_index_intermediate = "rightIndexIntermediate"
name right_index_distal = "rightIndexDistal"
name right_middle_proximal = "rightMiddleProximal"
name right_middle_intermediate = "rightMiddleIntermediate"
name right_middle_distal = "rightMiddleDistal"
name right_ring_proximal = "rightRingProximal"
name right_ring_intermediate = "rightRingIntermediate"
name right_ring_distal = "rightRingDistal"
name right_little_proximal = "rightLittleProximal"
name right_little_intermediate = "rightLittleIntermediate"
name right_little_distal = "rightLittleDistal"
name left_eye = "leftEye"
name right_eye = "rightEye"
name jaw = "jaw"

parse-name : (b : HumanoidBoneName) → parse (name b) ≡ some b
unfolding parse lookup
parse-name hips = refl
parse-name spine = refl
parse-name chest = refl
parse-name upper_chest = refl
parse-name neck = refl
parse-name head = refl
parse-name left_shoulder = refl
parse-name left_upper_arm = refl
parse-name left_lower_arm = refl
parse-name left_hand = refl
parse-name right_shoulder = refl
parse-name right_upper_arm = refl
parse-name right_lower_arm = refl
parse-name right_hand = refl
parse-name left_upper_leg = refl
parse-name left_lower_leg = refl
parse-name left_foot = refl
parse-name left_toes = refl
parse-name right_upper_leg = refl
parse-name right_lower_leg = refl
parse-name right_foot = refl
parse-name right_toes = refl
parse-name left_thumb_proximal = refl
parse-name left_thumb_intermediate = refl
parse-name left_thumb_distal = refl
parse-name left_index_proximal = refl
parse-name left_index_intermediate = refl
parse-name left_index_distal = refl
parse-name left_middle_proximal = refl
parse-name left_middle_intermediate = refl
parse-name left_middle_distal = refl
parse-name left_ring_proximal = refl
parse-name left_ring_intermediate = refl
parse-name left_ring_distal = refl
parse-name left_little_proximal = refl
parse-name left_little_intermediate = refl
parse-name left_little_distal = refl
parse-name right_thumb_proximal = refl
parse-name right_thumb_intermediate = refl
parse-name right_thumb_distal = refl
parse-name right_index_proximal = refl
parse-name right_index_intermediate = refl
parse-name right_index_distal = refl
parse-name right_middle_proximal = refl
parse-name right_middle_intermediate = refl
parse-name right_middle_distal = refl
parse-name right_ring_proximal = refl
parse-name right_ring_intermediate = refl
parse-name right_ring_distal = refl
parse-name right_little_proximal = refl
parse-name right_little_intermediate = refl
parse-name right_little_distal = refl
parse-name left_eye = refl
parse-name right_eye = refl
parse-name jaw = refl

names_agree : All (λ (e : String × HumanoidBoneName). e.0 ≡ name e.1) bone_names
names_agree = (
  refl,
  (
    refl,
    (
      refl,
      (
        refl,
        (
          refl,
          (
            refl,
            (
              refl,
              (
                refl,
                (
                  refl,
                  (
                    refl,
                    (
                      refl,
                      (
                        refl,
                        (
                          refl,
                          (
                            refl,
                            (
                              refl,
                              (
                                refl,
                                (
                                  refl,
                                  (
                                    refl,
                                    (
                                      refl,
                                      (
                                        refl,
                                        (
                                          refl,
                                          (
                                            refl,
                                            (
                                              refl,
                                              (
                                                refl,
                                                (
                                                  refl,
                                                  (
                                                    refl,
                                                    (
                                                      refl,
                                                      (
                                                        refl,
                                                        (
                                                          refl,
                                                          (
                                                            refl,
                                                            (
                                                            refl,
                                                            (
                                                            refl,
                                                            (
                                                            refl,
                                                            (
                                                            refl,
                                                            (
                                                            refl,
                                                            (
                                                            refl,
                                                            (
                                                            refl,
                                                            (
                                                            refl,
                                                            (
                                                            refl,
                                                            (
                                                            refl,
                                                            (
                                                            refl,
                                                            (
                                                            refl,
                                                            (
                                                            refl,
                                                            (
                                                            refl,
                                                            (
                                                            refl,
                                                            (
                                                            refl,
                                                            (
                                                            refl,
                                                            (
                                                            refl,
                                                            (
                                                            refl,
                                                            (
                                                            refl,
                                                            (
                                                            refl,
                                                            (refl, (refl, (refl, (refl, tt)))),
                                                            ),
                                                            ),
                                                            ),
                                                            ),
                                                            ),
                                                            ),
                                                            ),
                                                            ),
                                                            ),
                                                            ),
                                                            ),
                                                            ),
                                                            ),
                                                            ),
                                                            ),
                                                            ),
                                                            ),
                                                            ),
                                                            ),
                                                            ),
                                                            ),
                                                          ),
                                                        ),
                                                      ),
                                                    ),
                                                  ),
                                                ),
                                              ),
                                            ),
                                          ),
                                        ),
                                      ),
                                    ),
                                  ),
                                ),
                              ),
                            ),
                          ),
                        ),
                      ),
                    ),
                  ),
                ),
              ),
            ),
          ),
        ),
      ),
    ),
  ),
)

-- A text is taken for a bone exactly when it is the name of that bone.
pub parse-name_iff : (s : String) (b : HumanoidBoneName) → (parse s ≡ some b) ↔ (s ≡ name b)
unfolding parse
parse-name_iff s b =
    (λ h. lookup_of_names name bone_names s b names_agree h, λ e. rw e (parse-name b))
