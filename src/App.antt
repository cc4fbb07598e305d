-- ===== src/App.antt =====
-- crates/app: the states that the event loop keeps.
pub mod Mascot
pub mod AutoBlink
