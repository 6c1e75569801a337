-- ===== src/Windows.antt =====
-- The Windows side, source/windows.
pub mod Utility
pub mod Waitable
pub mod Connections
pub mod AsyncRequest
pub mod Socket
pub mod Client
pub mod ServerInstance
