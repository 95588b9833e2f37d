-- ===== src/BlockQueue/Send.antt =====
-- The writers of queue_block.c, and the calls that set a client's cursor.
use mcchost.Base.{ℕ, Bool, true, false, none, some, u32, ◌+◌, leb, if◌then◌else◌}
use mcchost.Ring.{put, wiped, set_last}
use mcchost.BlockQueue.State.{Xyzb, xyzb, BlockQueue, MapProp, Client}
use mcchost.BlockQueue.Open.{Created, Checked, lost_queue, checked, check_block_queue}

-- The body that `prelocked_update` and `send_update` share: `last_queue_len` is stored when the
-- offset goes round.
unfoldable pub store_update : BlockQueue → Xyzb → BlockQueue
unfolding put
store_update q e = record {
  ring = put q.ring e;
  last_queue_len =
      if leb q.ring.queue_len (u32 (q.ring.curr_offset + 1))
      then q.ring.queue_len
      else q.last_queue_len;
}

-- The writer's view of the level: its properties and its queue. `now` is the result of `time(0)`.
unfoldable pub prelocked_update : ℕ → ℕ → ℕ → ℕ → ℕ → MapProp → BlockQueue → MapProp × BlockQueue
unfolding store_update xyzb
prelocked_update now x y z b prop q =
    (record prop { dirty_save = true; last_modified = now }, store_update q (xyzb x y z b))

pub data Sent : Type 0 where
  no_queue : Sent
  sent : MapProp → Client → Sent

-- Under `level_lock`; the queue is there, or the process stops.
unfoldable pub send_update :
    (BlockQueue → Created) → Bool → ℕ → ℕ → ℕ → ℕ → ℕ → MapProp → Client → Sent
unfolding prelocked_update check_block_queue
send_update reopen named now x y z b prop c = elim (check_block_queue reopen named c) [
  | lost_queue ↦ no_queue
  | checked _ c' ↦ elim c'.queue [
    | none ↦ no_queue
    | some q ↦
        let (prop', q') = prelocked_update now x y z b prop q in
        sent prop' (record c' { queue = some q' })
  ]
]

unfoldable pub set_last_block_queue_id : (BlockQueue → Created) → Bool → Client → Checked
unfolding check_block_queue
set_last_block_queue_id reopen named c = elim c.queue [
  | none ↦ checked false c
  | some _ ↦ elim (check_block_queue reopen named c) [
    | lost_queue ↦ lost_queue
    | checked r c' ↦ elim c'.queue [
      | none ↦ lost_queue
      | some q ↦ checked r (record c' { cursor = set_last q.ring })
    ]
  ]
]

unfoldable pub wipe_last_block_queue_id : Client → Client
wipe_last_block_queue_id c = record c { cursor = wiped }
