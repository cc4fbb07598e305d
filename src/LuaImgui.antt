-- ===== src/LuaImgui.antt =====
-- crates/lua-imgui: the commands that a script collects, and their replay in a frame.
pub mod Commands
