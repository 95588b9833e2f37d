-- ===== src/BlockQueue/State.antt =====
-- The shared block queue, and what each client process keeps about it.
use mcchost.Base.{ℕ, Bool, Option, u16}
use mcchost.Ring.{Ring, Cursor}

-- `xyzb_t`.
pub record Xyzb : Type 0 where
  pub x : ℕ
  pub y : ℕ
  pub z : ℕ
  pub b : ℕ

-- The stores into the `uint16_t` fields of an entry.
unfoldable pub xyzb : ℕ → ℕ → ℕ → ℕ → Xyzb
xyzb x y z b = record { x = u16 x; y = u16 y; z = u16 z; b = u16 b }

-- What a fresh file holds.
abbrev pub blank : Xyzb
blank = record { x = 0; y = 0; z = 0; b = 0 }

-- `block_queue_t`, with as many entries as the file has room for.
pub record BlockQueue : Type 0 where
  pub ring : Ring Xyzb
  pub last_queue_len : ℕ

-- The fields of `map_info_t` that the queue reads or sets; the time is that of the last change.
pub record MapProp : Type 0 where
  pub total_blocks : ℕ
  pub last_map_download_size : ℕ
  pub dirty_save : Bool
  pub last_modified : ℕ

-- The statics of queue_block.c, with the mapping of shared.c: `queue` is `level_block_queue`.
pub record Client : Type 0 where
  pub queue : Option BlockQueue
  pub mmap_count : ℕ
  pub cursor : Cursor
  pub reload_pending : ℕ
