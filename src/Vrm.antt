-- ===== src/Vrm.antt =====
-- crates/vrm: names of bones and of expression presets, and the weights of bone groups.
pub mod Bone
pub mod BlendShape
pub mod BoneGroup
