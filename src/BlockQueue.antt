-- ===== src/BlockQueue.antt =====
-- queue_block.c and the block queue part of shared.c: the shared list of block changes of a level.
mod State
mod Open
mod Send
mod Drain
pub mod OpenLaws
pub mod Deliver
pub mod Broadcast
pub mod Collect
pub use State.{Xyzb, blank, BlockQueue, MapProp, Client}
unfoldable pub use State.{xyzb}
unfoldable pub use Open.{
  shared_size, repair, wanted_len, grow, finish_open, capacity, allocate_shared, create_block_queue,
  check_block_queue,
}
pub use Send.{Sent, sent}
pub use Drain.{stepped, Fetch, fetched}
pub use Open.{Created, absent, died, opened, Checked}
unfoldable pub use Send.{
  prelocked_update, send_update, set_last_block_queue_id, wipe_last_block_queue_id,
}
unfoldable pub use Drain.{setblocks, send_queued_blocks, fetch_queued_blocks}
