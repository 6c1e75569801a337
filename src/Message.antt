-- ===== src/Message.antt =====
-- The messages of include/ipc.hpp and source/ipc.cpp (`ipc::message`), and the frame around them.
pub mod Fields
pub mod Call
pub mod Reply
pub mod Frame
