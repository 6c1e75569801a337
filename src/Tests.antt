-- ===== src/Tests.antt =====
-- Runs at concrete inputs.
mod Messages
mod Dispatch
mod Server
mod Pipes
mod Platform
mod Windows
mod Instances
