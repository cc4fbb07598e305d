-- ===== src/Dynplug.antt =====
-- crates/dynplug: plugins as shared libraries or WebAssembly modules.
pub mod Platform
pub mod Backend
pub mod Manager
