-- ===== src/Video.antt =====
-- crates/video-decoder: the demuxer, the buffer of reference pictures, playback timing and the
-- choice of a backend.
pub mod Types
pub mod AnnexB
pub mod SampleTable
pub mod Mp4
pub mod Dpb
pub mod Playback
pub mod Selection
pub mod Session
