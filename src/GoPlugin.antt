-- ===== src/GoPlugin.antt =====
-- crates/go-plugin: the negotiation between host and plugin, checksums, and the server of calls.
pub mod Digits
pub mod Fields
pub mod Protocol
pub mod Secure
pub mod RpcServer
