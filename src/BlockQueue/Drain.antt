-- ===== src/BlockQueue/Drain.antt =====
-- The readers of queue_block.c.
use mcchost.Base.{
  ℕ, zero, suc, ◌+◌, ◌-◌, ◌*◌, Bool, false, ◌&&◌, Option, none, some, List, [], ◌∷◌, ◌++◌, ltb, leb,
  ◌==◌, if◌then◌else◌,
}
use mcchost.Ring.{Cursor, wiped, reading, Fetched, idle, overflow, drained, got, fetch}
use mcchost.BlockQueue.State.{Xyzb, blank, BlockQueue, Client}
use mcchost.BlockQueue.Open.{Created, lost_queue, checked, check_block_queue}
use mcchost.BlockQueue.Send.{set_last_block_queue_id}

-- One round under the lock, with the test of the two lengths.
unfoldable pub fetch_block : BlockQueue → Cursor → Fetched Xyzb
unfolding fetch
fetch_block q c = fetch blank (q.ring.queue_len == q.last_queue_len) q.ring c

-- Why a reading loop stopped.
pub data Stop : Type 0 where
  enough empty lapped : Stop

pub record Drained : Type 0 where
  pub updates : List Xyzb
  pub cursor : Cursor
  pub stop : Stop

-- At most `n` rounds of the loop of `send_queued_blocks`.
unfoldable pub drain : ℕ → BlockQueue → Cursor → Drained
unfolding fetch_block
drain zero q c = record { updates = []; cursor = c; stop = enough }
drain (suc n) q c = elim (fetch_block q c) [
  | idle ↦ record { updates = []; cursor = c; stop = empty }
  | drained ↦ record { updates = []; cursor = c; stop = empty }
  | overflow ↦ record { updates = []; cursor = wiped; stop = lapped }
  | got e c' ↦ let rest = drain n q c' in record rest { updates = e ∷ rest.updates }
]

-- What a client sends on: a block change, the whole map, or the notice to an admin.
pub data Action : Type 0 where
  setblock : Xyzb → Action
  map_file : Action
  reset_notice : Action

pub data Step : Type 0 where
  no_queue : Step
  stepped : List Action → Client → Step

unfoldable pub setblocks : List Xyzb → List Action
setblocks [] = []
setblocks (e ∷ es) = setblock e ∷ setblocks es

-- `last_id = level_block_queue->curr_offset` leaves the generation as it is.
unfoldable pub move_last_id : Cursor → ℕ → Cursor
move_last_id wiped o = reading o 0
move_last_id (reading id gen) o = reading o gen

unfoldable pub last_id_is : Cursor → ℕ → Bool
last_id_is wiped o = false
last_id_is (reading id gen) o = id == o

-- The count down to a reload, faster while nothing is written.
unfoldable pub count_down : BlockQueue → Client → Client
unfolding move_last_id last_id_is
count_down q c =
    let n = c.reload_pending - 1 in
    record c {
      reload_pending = if ltb 6 n && last_id_is c.cursor q.ring.curr_offset then n - 5 else n;
      cursor = move_last_id c.cursor q.ring.curr_offset;
    }

-- The reload: an admin's client may first reopen the queue; `send_map_file` sets the cursor anew.
unfoldable pub reload : (BlockQueue → Created) → Bool → Bool → Client → Step
unfolding check_block_queue set_last_block_queue_id
reload reopen named admin c =
    let send = λ (notice : List Action) (d : Client).
      let s : Step = elim (set_last_block_queue_id reopen named d) [
        | lost_queue ↦ no_queue
        | checked _ e ↦ stepped (notice ++ map_file ∷ []) e
      ] in
      s in
    let d = record c { reload_pending = 0 } in
    if admin
    then elim (check_block_queue reopen named d) [
      | lost_queue ↦ no_queue
      | checked r e ↦ send (if r then reset_notice ∷ [] else []) e
    ]
    else send [] d

-- The updates proper, once a queue is there and no reload is due.
unfoldable pub send_updates : (BlockQueue → Created) → Bool → Client → Step
unfolding check_block_queue
send_updates reopen named c = elim (check_block_queue reopen named c) [
  | lost_queue ↦ no_queue
  | checked _ d ↦ elim d.queue [
    | none ↦ no_queue
    | some q ↦
        let out = drain 1024 q d.cursor in
        let e = record d { cursor = out.cursor } in
        stepped (setblocks out.updates)
          (elim out.stop [ lapped ↦ record e { reload_pending = 100 } | _ ↦ e ])
  ]
]

-- `bytes_queued` is the result of `bytes_queued_to_send`, and `admin` that of `perm_is_admin`.
unfoldable pub send_queued_blocks : (BlockQueue → Created) → Bool → Bool → Bool → Client → Step
unfolding count_down reload send_updates
send_queued_blocks reopen named bytes_queued admin c =
    if ltb 0 c.reload_pending
    then elim c.queue [
      | none ↦ stepped [] (record c { reload_pending = 0 })
      | some q ↦
          if bytes_queued
          then stepped [] c
          else if ltb 1 c.reload_pending
          then stepped [] (count_down q c)
          else reload reopen named admin c
    ]
    else elim c.cursor [
      | wiped ↦ stepped [] c
      | reading _ _ ↦ elim c.queue [ none ↦ stepped [] c | some _ ↦ send_updates reopen named c ]
    ]

-- The buffer of `fetch_queued_blocks` after a request for one more entry: doubled from 256.
unfoldable pub enlarged : ℕ → ℕ
enlarged size = (if size == 0 then 256 else size) * 2

-- The array handed back, and the cursor. `none` is a failure of `realloc`: the entries are dropped,
-- with the cursor past them.
pub record Collected : Type 0 where
  pub array : Option (List Xyzb)
  pub cursor : Cursor

-- The loop of `fetch_queued_blocks`, which holds the lock. `enough_memory` says whether a buffer of
-- that many entries is to be had, `count` and `size` are `update_count` and `update_sz`.
unfoldable pub collect : (ℕ → Bool) → ℕ → BlockQueue → Cursor → ℕ → ℕ → List Xyzb → Collected
unfolding fetch_block enlarged
collect enough_memory zero q c count size out = record { array = some out; cursor = c }
collect enough_memory (suc n) q c count size out = elim (fetch_block q c) [
  | idle ↦ record { array = some out; cursor = c }
  | drained ↦ record { array = some out; cursor = c }
  | overflow ↦ record { array = some out; cursor = wiped }
  | got e c' ↦
      let more = collect enough_memory n q c' (count + 1) (enlarged size) (out ++ e ∷ []) in
      let plain = collect enough_memory n q c' (count + 1) size (out ++ e ∷ []) in
      if leb size count
      then if enough_memory (enlarged size) then more else record { array = none; cursor = c' }
      else plain
]

pub data Fetch : Type 0 where
  no_queue : Fetch
  fetched : Option (List Xyzb) → Client → Fetch

-- `fetch_queued_blocks`: all that is unread. A reader is less than `queue_len` entries behind, so that
-- many rounds are enough.
unfoldable pub fetch_queued_blocks : (BlockQueue → Created) → Bool → (ℕ → Bool) → Client → Fetch
unfolding check_block_queue
fetch_queued_blocks reopen named enough_memory c = elim c.cursor [
  | wiped ↦ fetched (some []) c
  | reading _ _ ↦ elim c.queue [
    | none ↦ fetched (some []) c
    | some _ ↦ elim (check_block_queue reopen named c) [
      | lost_queue ↦ no_queue
      | checked _ d ↦ elim d.queue [
        | none ↦ no_queue
        | some q ↦
            let out = collect enough_memory q.ring.queue_len q d.cursor 0 0 [] in
            fetched out.array (record d { cursor = out.cursor })
      ]
    ]
  ]
]
