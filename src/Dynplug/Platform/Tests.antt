-- ===== src/Dynplug/Platform/Tests.antt =====
-- The library of an example plugin on macOS.
