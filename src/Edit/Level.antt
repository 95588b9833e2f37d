-- ===== src/Edit/Level.antt =====
-- The level that the edits work on: the array of blocks, the block definitions, and the calls that
-- tell the other players.
use mcchost.Base.{ℕ, ◌+◌, ◌*◌, Bool, List, [], ◌∷◌, ◌++◌, leb, if◌then◌else◌, get_or, set}

-- The fields of `blockdef_t` that the edits read.
pub record Physics : Type 0 where
  pub transmits_light : Bool
  pub grass_block : ℕ
  pub dirt_block : ℕ
  pub stack_block : ℕ
  pub fastfall_flag : Bool

-- The parts of `map_info_t` that do not change during an edit.
pub record Level : Type 0 where
  pub cells_x : ℕ
  pub cells_y : ℕ
  pub cells_z : ℕ
  pub blockdef : ℕ → Physics

abbrev pub block_max : ℕ
block_max = 1024

-- `World_Pack`.
unfoldable pub world_pack : Level → ℕ → ℕ → ℕ → ℕ
world_pack l x y z = (y * l.cells_z + z) * l.cells_x + x

-- `if (b >= BLOCKMAX) b = BLOCKMAX-1;`
unfoldable pub limit_block : ℕ → ℕ
limit_block b = if leb block_max b then 1023 else b

-- A call of `send_update`, and of `send_setblock_pkt` for the player alone.
pub data Change : Type 0 where
  send_update : ℕ → ℕ → ℕ → ℕ → Change
  send_setblock : ℕ → ℕ → ℕ → ℕ → Change

-- `level_blocks`, and the calls so far.
pub record Edit : Type 0 where
  pub blocks : List ℕ
  pub calls : List Change

unfoldable pub block_at : Level → List ℕ → ℕ → ℕ → ℕ → ℕ
unfolding world_pack
block_at l m x y z = get_or m (world_pack l x y z) 0

unfoldable pub tell : Change → Edit → Edit
tell c e = record e { calls = e.calls ++ c ∷ [] }

-- A store into `level_blocks`.
unfoldable pub store : Level → ℕ → ℕ → ℕ → ℕ → Edit → Edit
unfolding world_pack
store l x y z b e = record e { blocks = set e.blocks (world_pack l x y z) b }

-- A store, with the call that tells of it.
unfoldable pub store_and_tell : Level → ℕ → ℕ → ℕ → ℕ → Edit → Edit
unfolding store tell
store_and_tell l x y z b e = tell (send_update x y z b) (store l x y z b e)
