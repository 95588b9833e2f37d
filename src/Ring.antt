-- ===== src/Ring.antt =====
-- The ring that the three shared queues (queue_block.c, queue_chat.c, queue_cmd.c) have in common: a
-- generation counter, a write offset and an array of entries in shared memory. Every process keeps
-- its own cursor, `last_id` and `last_generation`, which is `wiped` while `last_id` is -1.
mod Step
pub mod Feed
pub mod Follow
pub mod Refine
pub mod Loop
pub use Step.{Ring, Cursor, wiped, reading, Fetched, idle, overflow, drained, got}
unfoldable pub use Step.{put, set_last, is_current, advance, fetch}
