-- ===== src/Tests/Blocks.antt =====
-- A queue of 250 blocks, opened from a file and written to.
use mcchost.Base.{
  ◌++◌, ◌≡◌, refl, true, false, List, [], ◌∷◌, map, arith, take, drop, replicate, length-replicate,
  some,
}
use mcchost.Ring.{Cursor, wiped, set_last}
use mcchost.BlockQueue.{
  Xyzb, blank, BlockQueue, MapProp, Created, absent, opened, capacity, shared_size, allocate_shared,
  repair, wanted_len, grow, finish_open, create_block_queue, sent, stepped, setblocks,
  send_queued_blocks, fetched, fetch_queued_blocks,
}
use mcchost.BlockQueue.OpenLaws.{
  IsHeader, Opens, create_block_queue-Opens, KeepsEntries, create_block_queue-KeepsEntries,
}
use mcchost.BlockQueue.Deliver.{IsSound, Before, watching, store_all}
use mcchost.BlockQueue.Broadcast.{stored, send_all, touched, broadcast, broadcast_lapped}
use mcchost.BlockQueue.Collect.{plenty, fetch_queued_blocks-store_all}

-- A queue with its writer at entry 248.
abbrev full_file : BlockQueue
full_file = record {
  ring = record {
    generation = 4;
    curr_offset = 248;
    queue_len = 250;
    updates = replicate 250 blank;
  };
  last_queue_len = 250;
}

abbrev level : MapProp
level = record {
  total_blocks = 2097152;
  last_map_download_size = 40000;
  dirty_save = false;
  last_modified = 0;
}

full_file-IsSound : IsSound full_file
full_file-IsSound = record {
  ring_valid = record {
    offset_in = omega arith;
    room = omega (arith, length-replicate {A = Xyzb} 250 blank);
    len_fits = omega arith;
    generation_fits = omega arith;
  };
  same_len = refl;
}

full_file-IsHeader : IsHeader full_file
full_file-IsHeader = record {
  generation_fits = omega arith;
  offset_fits = omega arith;
  len_fits = omega arith;
}

abbrev three : List Xyzb
three =
    record { x = 1; y = 2; z = 3; b = 4 }
    ∷ record { x = 70000; y = 2; z = 3; b = 5 }
    ∷ record { x = 1; y = 2; z = 4; b = 6 }
    ∷ []

abbrev no_reopen : BlockQueue → Created
no_reopen q = absent

create_block_queue-Opens_example :
    Opens 4096 (create_block_queue 4096 level 1028 true true true full_file)
create_block_queue-Opens_example =
    create_block_queue-Opens 4096 level 1028 true true true full_file (omega arith) (omega arith)
      (omega arith) full_file-IsHeader

broadcast_example :
    (q' : BlockQueue) × (c : Cursor) × (send_all no_reopen false 77 three level
        (watching full_file wiped)
      ≡ sent (touched no_reopen false 77 three level) (watching q' wiped))
    × (send_queued_blocks no_reopen false false true (watching q' (set_last full_file.ring))
        ≡ stepped (setblocks (take 1024 (map stored three))) (watching q' c))
    × Before q' c (drop 1024 (map stored three))
broadcast_example =
    broadcast no_reopen false 77 false true three level full_file wiped full_file-IsSound
      (omega arith)

broadcast_lapped_example :
    (q' : BlockQueue) × (send_all no_reopen false 77
        (replicate 300 blank)
        level
        (watching full_file wiped)
      ≡ sent (touched no_reopen false 77 (replicate 300 blank) level) (watching q' wiped))
    × (send_queued_blocks no_reopen false false true (watching q' (set_last full_file.ring))
        ≡ stepped [] (record (watching q' wiped) { reload_pending = 100 }))
broadcast_lapped_example =
    broadcast_lapped no_reopen false 77 false true (replicate 300 blank) level full_file wiped
      full_file-IsSound (omega (arith, length-replicate {A = Xyzb} 300 blank))
      (omega (arith, length-replicate {A = Xyzb} 300 blank))

fetch_queued_blocks-store_all_example :
    (c : Cursor) × (fetch_queued_blocks no_reopen false plenty
        (watching (store_all full_file three) (set_last full_file.ring))
      ≡ fetched (some three) (watching (store_all full_file three) c))
    × Before (store_all full_file three) c []
fetch_queued_blocks-store_all_example =
    fetch_queued_blocks-store_all no_reopen false full_file three full_file-IsSound (omega arith)

-- A queue of 300 changes that is in use, opened by one more process with pages of 8 bytes.
abbrev one : Xyzb
one = record { x = 1; y = 1; z = 1; b = 1 }

abbrev long_file : BlockQueue
long_file = record {
  ring = record { generation = 4; curr_offset = 290; queue_len = 300; updates = replicate 300 one };
  last_queue_len = 300;
}

abbrev kept_file : BlockQueue
kept_file = record long_file {
  ring = record (long_file.ring) { updates = replicate 300 one ++ blank ∷ [] };
}

long_file-opened : create_block_queue 8 level 1028 true true true long_file ≡ opened kept_file 300
unfolding create_block_queue allocate_shared capacity shared_size repair wanted_len grow finish_open
long_file-opened = refl

create_block_queue-KeepsEntries_example :
    KeepsEntries long_file (create_block_queue 8 level 1028 true true true long_file)
create_block_queue-KeepsEntries_example =
    create_block_queue-KeepsEntries 8 level 1028 true true true long_file
