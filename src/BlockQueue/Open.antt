-- ===== src/BlockQueue/Open.antt =====
-- `allocate_shared`, `create_block_queue` and `check_block_queue` of shared.c. The system's page size
-- and whether each of its allocations succeeds are arguments.
use mcchost.Base.{
  ℕ, ◌+◌, ◌-◌, ◌*◌, ◌/◌, ◌%◌, ◌^◌, Bool, true, false, not, ◌&&◌, ◌||◌, none, some, ◌++◌, ltb, leb,
  ◌==◌, if◌then◌else◌, u32, length, replicate,
}
use mcchost.BlockQueue.State.{blank, BlockQueue, MapProp, Client}

abbrev pub min_queue : ℕ
min_queue = 250

abbrev pub std_queue : ℕ
std_queue = 2048

-- `sizeof(*level_block_queue) + n * sizeof(xyzb_t)`, rounded up to whole pages.
unfoldable pub shared_size : ℕ → ℕ → ℕ
shared_size page n = let sz = 24 + n * 8 + page - 1 in sz - sz % page

-- The entries that fit the file behind its 16 bytes of header.
unfoldable pub capacity : ℕ → ℕ → ℕ
unfolding shared_size
capacity page n = (shared_size page n - 16) / 8

-- `posix_fallocate`, the branch that is built where the system declares it: a file that is shorter than
-- the pages asked for is filled up with zeros, and a longer one stays as it is. `updates` is what the
-- file holds; a process maps the entries below `capacity` of it.
unfoldable pub allocate_shared : ℕ → ℕ → BlockQueue → BlockQueue
unfolding capacity
allocate_shared page n q =
    let room = capacity page n in
    let us = q.ring.updates ++ replicate (room - length q.ring.updates) blank in
    record q { ring = record (q.ring) { updates = us } }

-- The check of the header, and its repair.
unfoldable pub repair : MapProp → BlockQueue → BlockQueue
repair prop q =
    let r = q.ring in
    if r.generation == 0
      || ltb r.queue_len min_queue
      || leb r.queue_len r.curr_offset
      || (ltb std_queue r.queue_len && ltb prop.total_blocks r.queue_len)
    then record {
      ring = record r {
        generation = u32 (r.generation + 2);
        curr_offset = 0;
        queue_len = min_queue;
      };
      last_queue_len = min_queue;
    }
    else q

-- The length wanted for a level whose map took `last_map_download_size` bytes to send.
unfoldable pub wanted_len : MapProp → ℕ → ℕ
wanted_len prop pkt_len =
    let packets = prop.last_map_download_size / pkt_len in
    if ltb min_queue packets
    then (let rounded = (packets + 8 + 1024) / 1024 * 1024 in
        (if ltb rounded 2048 then std_queue else rounded) - 8)
    else min_queue

pub data Created : Type 0 where
  absent died : Created
  opened : BlockQueue → ℕ → Created

-- The last two assignments: a queue that was never round has the new length for its last one.
unfoldable pub finish_open : ℕ → BlockQueue → Created
finish_open count q =
    opened (if q.last_queue_len == 0 then record q { last_queue_len = count } else q) count

unfoldable pub grow : ℕ → BlockQueue → BlockQueue
grow count q =
    if ltb q.ring.queue_len count
    then record q { ring = record (q.ring) { queue_len = count } }
    else q

-- `first`, `second` and `third` say which of the three allocations succeed. A `queue_len` of
-- 2 ^ 31 or more would be a negative `file_queue_count`.
unfoldable pub create_block_queue : ℕ → MapProp → ℕ → Bool → Bool → Bool → BlockQueue → Created
create_block_queue page prop pkt_len first second third file =
    let q = repair prop (allocate_shared page min_queue file) in
    let file_count = q.ring.queue_len in
    let want = wanted_len prop pkt_len in
    let count = if ltb want file_count && ltb file_count (2 ^ 31) then file_count else want in
    let again = finish_open file_count (allocate_shared page file_count q) in
    if not first
    then absent
    else if second
    then finish_open count (grow count (allocate_shared page count q))
    else if file_count == count
    then died
    else if third
    then again
    else died

pub data Checked : Type 0 where
  lost_queue : Checked
  checked : Bool → Client → Checked

-- `check_block_queue`: reopen the queue where another process has made it longer. `reopen` is the
-- call of `create_block_queue`; `named` tells that the level's file name is known.
unfoldable pub check_block_queue : (BlockQueue → Created) → Bool → Client → Checked
check_block_queue reopen named c = elim c.queue [
  | none ↦ checked false c
  | some q ↦
      let reopened : Checked = elim (reopen q) [
        | absent ↦ lost_queue
        | died ↦ lost_queue
        | opened q' n ↦ checked true (record c { queue = some q'; mmap_count = n })
      ] in
      if c.mmap_count == q.ring.queue_len
      then checked false c
      else if ltb q.ring.queue_len c.mmap_count
      then checked false (record c { mmap_count = q.ring.queue_len })
      else if named
      then reopened
      else lost_queue
]
