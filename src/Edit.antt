-- ===== src/Edit.antt =====
-- queue_block.c, its first half: `update_block`, `grow_dirt_block` and `check_for_sand`, which change
-- the level and queue each change.
pub mod Level
pub mod Sand
pub mod Place
pub mod Replay
pub mod Count
pub mod Conserve
pub mod Rounds
