-- ===== src/Vrm/BoneGroup/Tests.antt =====
-- The weights that the source writes.
use kalidokit_rust.Base.{ℕ, ◌≡◌, refl}
use kalidokit_rust.Vrm.Bone.{left_hand, right_hand}
use kalidokit_rust.Vrm.BoneGroup.{of, find_weight, default_config, tracking_weight}
use kalidokit_rust.Vrm.BoneGroup.Mirror.{tracking_weight-mirrored}

abbrev tenths : ℕ → ℕ
tenths n = n

weight_of_hand : tracking_weight tenths (default_config tenths) left_hand ≡ 7
unfolding tracking_weight default_config of find_weight
weight_of_hand = refl

tracking_weight-mirrored_example :
    tracking_weight tenths (default_config tenths) right_hand
    ≡ tracking_weight tenths (default_config tenths) left_hand
tracking_weight-mirrored_example = tracking_weight-mirrored tenths (default_config tenths) left_hand
