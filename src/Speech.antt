-- ===== src/Speech.antt =====
-- crates/speech-capture: the filter in front of the transcription, and the worker that feeds the
-- segmenter and passes its events on.
pub mod Filter
pub mod Denoise
pub mod Worker
