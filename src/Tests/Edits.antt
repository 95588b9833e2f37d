-- ===== src/Tests/Edits.antt =====
-- Edits of one column of five blocks: sand falls, and the others hear of it.
use mcchost.Base.{none, zero, suc, ◌≡◌, refl, true, false, [], ◌∷◌, arith, ◌==◌}
use mcchost.Base.Int.{pos}
use mcchost.Edit.Level.{
  Level, world_pack, limit_block, block_at, send_update, Edit, tell, store, store_and_tell,
}
use mcchost.Edit.Sand.{
  Fall, solid_at, find_bottom, find_air, find_block, settle_saved, move_down, with_block, with_air,
  fall, finish_fall, check_for_sand,
}
use mcchost.Edit.Place.{Counted, update_block}
use mcchost.Edit.Replay.{replay, replay-update_block}
use mcchost.Edit.Count.{count, IsDefined}
use mcchost.Edit.Conserve.{check_for_sand-count}
use mcchost.Edit.Rounds.{fall_enough}
use mcchost.Request.Read.{SetBlock}

-- Block 12 is sand.
abbrev column : Level
column = record {
  cells_x = 1;
  cells_y = 5;
  cells_z = 1;
  blockdef = λ b. record {
    transmits_light = b == 0;
    grass_block = 0;
    dirt_block = 0;
    stack_block = 0;
    fastfall_flag = b == 12;
  };
}

abbrev hanging : Edit
hanging = record { blocks = 1 ∷ 0 ∷ 12 ∷ 0 ∷ 12 ∷ []; calls = [] }

sand_falls : check_for_sand column 0 0 2 hanging ≡ record {
  blocks = 1 ∷ 12 ∷ 12 ∷ 0 ∷ 0 ∷ [];
  calls = send_update 0 1 0 12 ∷ send_update 0 4 0 0 ∷ [];
}
unfolding check_for_sand fall finish_fall with_air with_block move_down settle_saved store tell
    store_and_tell find_air find_block find_bottom solid_at limit_block block_at world_pack
sand_falls = refl

abbrev falling : Fall
falling = record { edit = hanging; saved = none }

fall_enough_example : fall column 0 0 8 0 0 falling ≡ fall column 0 0 5 0 0 falling
fall_enough_example = fall_enough column 0 0 5 8 0 0 falling (omega arith) (omega arith)

-- The last block of sand is dug away from below.
abbrev dig : SetBlock
dig = record { x = pos 0; y = pos 0; z = pos 0; mode = pos 0; block = 0; heldblock = 12 }

abbrev before : Counted
before = record { edit = hanging; blocks_placed = 0; blocks_deleted = 0; dirty = false }

replay-update_block_example :
    replay column hanging.blocks (update_block column dig true before).edit.calls
    ≡ (update_block column dig true before).edit.blocks
unfolding replay
replay-update_block_example = replay-update_block column hanging.blocks dig true before refl

hanging-IsDefined : IsDefined hanging.blocks
hanging-IsDefined zero = omega arith
hanging-IsDefined (suc zero) = omega arith
hanging-IsDefined (suc (suc zero)) = omega arith
hanging-IsDefined (suc (suc (suc zero))) = omega arith
hanging-IsDefined (suc (suc (suc (suc zero)))) = omega arith
hanging-IsDefined (suc (suc (suc (suc (suc i))))) = omega arith

check_for_sand-count_example :
    count 12 (check_for_sand column 0 0 2 hanging).blocks ≡ count 12 hanging.blocks
check_for_sand-count_example = check_for_sand-count column 0 0 2 12 hanging hanging-IsDefined
