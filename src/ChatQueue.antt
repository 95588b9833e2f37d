-- ===== src/ChatQueue.antt =====
-- queue_chat.c: chat lines between the server's processes, in entries of 64 bytes.
pub mod Post
pub mod Hear
pub mod Parts
pub mod Deliver
