-- ===== src/Osx.antt =====
-- The macOS side, source/apple.
pub mod Channel
pub mod ServerInstance
pub mod Client
pub mod Rpc
pub mod Socket
