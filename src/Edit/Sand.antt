-- ===== src/Edit/Sand.antt =====
-- `check_for_sand`: the blocks that fall in one column. Heights count from 0.
use mcchost.Base.{
  ℕ, zero, suc, ◌-◌, not, ◌&&◌, ◌||◌, Option, none, some, List, ltb, leb, ◌==◌, if◌then◌else◌,
}
use mcchost.Edit.Level.{
  Level, limit_block, block_at, send_update, Edit, tell, store, store_and_tell,
}

-- `saved` is `sav_y` with `sav_b`: a height that is air in the level already, while the others have
-- not been told yet.
pub record Fall : Type 0 where
  pub edit : Edit
  pub saved : Option (ℕ × ℕ)

module _ (l : Level) (x z : ℕ) where
  unfoldable pub solid_at : List ℕ → ℕ → ℕ
  unfolding limit_block block_at
  solid_at m y = limit_block (block_at l m x y z)

  -- Down to the block that carries the column.
  unfoldable pub find_bottom : List ℕ → ℕ → ℕ
  find_bottom m zero = zero
  find_bottom m (suc y) =
      let lower = find_bottom m y in
      let blk = solid_at m (suc y) in
      if not (blk == 0) && not (l.blockdef blk).fastfall_flag then suc y else lower

  -- The first of `n` heights from `y` on that holds air, and the first that holds a block.
  unfoldable pub find_air : List ℕ → ℕ → ℕ → Option ℕ
  find_air m zero y = none
  find_air m (suc n) y =
      let higher = find_air m n (suc y) in if solid_at m y == 0 then some y else higher

  unfoldable pub find_block : List ℕ → ℕ → ℕ → Option (ℕ × ℕ)
  find_block m zero y = none
  find_block m (suc n) y =
      let higher = find_block m n (suc y) in
      if solid_at m y == 0 then higher else some (y, solid_at m y)

  -- The block that was saved goes back if its place is filled at once; else the others hear of it.
  unfoldable pub settle_saved : ℕ → Fall → Edit
  unfolding tell store
  settle_saved new_y f = elim f.saved [
    | none ↦ f.edit
    | some s ↦
        if s.0 == new_y then store l x s.0 z s.1 f.edit else tell (send_update x s.0 z 0) f.edit
  ]

  -- One block falls from `old_y` to `new_y`.
  unfoldable pub move_down : ℕ → ℕ → ℕ → Fall → Fall
  unfolding settle_saved store_and_tell
  move_down new_y old_y to_move f =
      let e = settle_saved new_y f in
      let filled =
        if block_at l e.blocks x new_y z == to_move
        then e
        else store_and_tell l x new_y z to_move e in
      record {
        edit = store l x old_y z 0 filled;
        saved = some (old_y, block_at l filled.blocks x old_y z);
      }

  -- The end of a round, with what `find_block` has found; `rest` are the rounds after it.
  unfoldable pub with_block : (ℕ → Fall → Fall) → ℕ → Fall → Option (ℕ × ℕ) → Fall
  with_block rest air f none = f
  with_block rest air f (some found) =
      let next = rest (suc found.0) (move_down air found.0 found.1 f) in
      if (l.blockdef found.1).fastfall_flag then next else f

  -- The middle of a round, with what `find_air` has found.
  unfoldable pub with_air : (ℕ → ℕ → Fall → Fall) → ℕ → Fall → Option ℕ → Fall
  unfolding with_block
  with_air rest old_y f none = f
  with_air rest old_y f (some air) =
      let from = if ltb old_y air then air else old_y in
      with_block (rest air) air f (find_block f.edit.blocks (l.cells_y - from) from)

  -- At most `n` rounds of the main loop.
  unfoldable pub fall : ℕ → ℕ → ℕ → Fall → Fall
  unfolding with_air
  fall zero new_y old_y f = f
  fall (suc n) new_y old_y f =
      let next =
        with_air (λ a o g. fall n a o g) old_y f
          (find_air f.edit.blocks (l.cells_y - new_y) new_y) in
      if leb l.cells_y old_y then f else next

  -- What is left to tell at the end.
  unfoldable pub finish_fall : Fall → Edit
  unfolding tell
  finish_fall f = elim f.saved [ none ↦ f.edit | some s ↦ tell (send_update x s.0 z 0) f.edit ]

  -- Each round takes `old_y` up by one at the least, so as many rounds as there are heights above
  -- the bottom are enough.
  unfoldable pub check_for_sand : ℕ → Edit → Edit
  check_for_sand y e =
      if leb l.cells_x x || leb l.cells_y y || leb l.cells_z z
      then e
      else (let min_y = find_bottom e.blocks y in
          finish_fall (fall (l.cells_y - min_y) min_y min_y (record { edit = e; saved = none })))
