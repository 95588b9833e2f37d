-- ===== src/CommandQueue.antt =====
-- queue_cmd.c: commands between the server's processes.
pub mod Post
pub mod Obey
