-- ===== src/Edit/Place.antt =====
-- `update_block` and `grow_dirt_block`: one block is placed or deleted, with the changes that follow.
use mcchost.Base.{
  ℕ, suc, ◌+◌, ◌-◌, Bool, true, false, not, ◌&&◌, ◌||◌, List, [], ◌∷◌, ◌++◌, ltb, ◌==◌,
  if◌then◌else◌,
}
use mcchost.Base.Int.{ℤ, pos, pos_part, eq_ℤ, is_nonneg, ltb_ℤ}
use mcchost.Request.Read.{SetBlock}
use mcchost.Edit.Level.{Level, limit_block, block_at, send_setblock, Edit, tell, store_and_tell}
use mcchost.Edit.Sand.{check_for_sand}

-- `(block_t)-1`.
abbrev pub no_block : ℕ
no_block = 65535

-- The coordinates next to `i`, and `i` itself, of `n` in all.
abbrev near : ℕ → ℕ → List ℕ
near n i =
    (if i == 0 then [] else ((i - 1) ∷ [])) ++ i ∷ (if ltb (suc i) n then (suc i ∷ []) else [])

abbrev some_of : (ℕ → Bool) → List ℕ → Bool
some_of p [] = false
some_of p (i ∷ is) = p i || some_of p is

-- What is to be placed: the block, the block below it, or `no_block`, and whether the player is to
-- be told even if nothing changes.
pub record Plan : Type 0 where
  pub b : ℕ
  pub new_below : ℕ
  pub told : Bool

module _ (l : Level) where
  unfoldable pub grow_dirt_block : List ℕ → ℕ → ℕ → ℕ → ℕ → ℕ
  unfolding block_at
  grow_dirt_block m x y z blk =
      let grass = (l.blockdef blk).grass_block in
      let is_self = λ (i j k : ℕ). i == x && j == y && k == z in
      let found =
        some_of
          (λ i.
            some_of
              (λ j.
                some_of (λ k. not (is_self i j k) && block_at l m i j k == grass)
                  (near l.cells_z z))
              (near l.cells_y y))
          (near l.cells_x x) in
      if not (grass == 0) && found then grass else blk

  -- Two halves, one on the other, become one block.
  unfoldable pub stack_blocks : List ℕ → ℕ → ℕ → ℕ → Plan → Plan
  unfolding block_at
  stack_blocks m x y z p =
      let newblock = (l.blockdef p.b).stack_block in
      if ltb 0 y
        && not (newblock == 0)
        && block_at l m x y z == 0
        && p.b == block_at l m x (y - 1) z
      then record { b = 0; new_below = newblock; told = true }
      else p

  unfoldable pub block_above : List ℕ → ℕ → ℕ → ℕ → ℕ
  unfolding block_at limit_block
  block_above m x y z = if ltb y (l.cells_y - 1) then limit_block (block_at l m x (suc y) z) else 0

  -- Grass under a block that keeps the light off becomes dirt, and dirt in the light grass.
  unfoldable pub correct_block : List ℕ → ℕ → ℕ → ℕ → Plan → Plan
  unfolding grow_dirt_block block_above
  correct_block m x y z p =
      let d = l.blockdef p.b in
      let old_block = block_at l m x y z in
      let light = (l.blockdef (block_above m x y z)).transmits_light in
      if not light && not (d.dirt_block == 0) && not (d.dirt_block == old_block)
      then record p { b = d.dirt_block }
      else if light && not (d.grass_block == 0) && not (d.grass_block == old_block)
      then record p { b = grow_dirt_block m x y z p.b }
      else p

  -- The same for the block below.
  unfoldable pub correct_below : List ℕ → ℕ → ℕ → ℕ → Plan → Plan
  unfolding grow_dirt_block limit_block block_at
  correct_below m x y z p =
      let light = (l.blockdef p.b).transmits_light in
      let raw = block_at l m x (y - 1) z in
      let below = l.blockdef (limit_block raw) in
      let t = grow_dirt_block m x (y - 1) z raw in
      if y == 0
      then p
      else if light && not (below.grass_block == 0)
      then if t == raw then p else record p { new_below = t }
      else if not light && not (below.dirt_block == 0)
      then record p { new_below = below.dirt_block }
      else p

  unfoldable pub place_block : ℕ → ℕ → ℕ → Plan → Edit → Edit
  unfolding store_and_tell tell
  place_block x y z p e =
      if p.b == no_block
      then e
      else if not (p.b == block_at l e.blocks x y z)
      then store_and_tell l x y z p.b e
      else if p.told
      then tell (send_setblock x y z p.b) e
      else e

  unfoldable pub changes_below : ℕ → ℕ → ℕ → Plan → Edit → Bool
  unfolding block_at
  changes_below x y z p e =
      not (p.new_below == no_block)
      && ltb 0 y
      && not (p.new_below == block_at l e.blocks x (y - 1) z)

  unfoldable pub place_below : ℕ → ℕ → ℕ → Plan → Edit → Edit
  unfolding store_and_tell changes_below
  place_below x y z p e =
      if changes_below x y z p e then store_and_tell l x (y - 1) z p.new_below e else e

  -- Sand and gravel: the block itself, and the one above. `below` is the block below before the edit.
  unfoldable pub let_fall : ℕ → ℕ → ℕ → ℕ → ℕ → Edit → Edit
  let_fall x y z below b e =
      if ltb 0 y && (l.blockdef b).fastfall_flag && below == 0 then check_for_sand l x z y e else e

  unfoldable pub let_fall_above : ℕ → ℕ → ℕ → ℕ → Edit → Edit
  let_fall_above x y z above e =
      if not (above == 0) && (l.blockdef above).fastfall_flag
      then check_for_sand l x z (suc y) e
      else e

  -- What follows from the block that the packet asks for.
  unfoldable pub make_plan : List ℕ → ℕ → ℕ → ℕ → Plan → Plan
  unfolding stack_blocks correct_block correct_below
  make_plan m x y z start =
      correct_below m x y z (correct_block m x y z (stack_blocks m x y z start))

  -- The stores and the calls, in the order that keeps the calls few. `above` and `below` are the
  -- blocks there before.
  unfoldable pub carry_out : ℕ → ℕ → ℕ → ℕ → ℕ → Plan → Edit → Edit
  unfolding place_block place_below let_fall let_fall_above
  carry_out x y z above below p e =
      let placed = place_block x y z p e in
      let below' = if changes_below x y z p placed then p.new_below else below in
      let_fall_above x y z above (let_fall x y z below' p.b (place_below x y z p placed))

-- The user's counters, beside the level.
pub record Counted : Type 0 where
  pub edit : Edit
  pub blocks_placed : ℕ
  pub blocks_deleted : ℕ
  pub dirty : Bool

unfoldable pub count_block : ℕ → Counted → Counted
count_block b c =
    if b == 0
    then record c { blocks_deleted = c.blocks_deleted + 1; dirty = true }
    else record c { blocks_placed = c.blocks_placed + 1; dirty = true }

module _ (l : Level) (pkt : SetBlock) where
  abbrev inside : ℤ → ℕ → Bool
  inside v n = is_nonneg v && ltb_ℤ v (pos n)

  -- The first four returns. `loaded`: the level and its queue are there.
  unfoldable pub is_refused : Bool → Bool
  is_refused loaded =
      not loaded
      || not (inside pkt.x l.cells_x)
      || not (inside pkt.y l.cells_y)
      || not (inside pkt.z l.cells_z)

  unfoldable pub block_wanted : ℕ
  unfolding limit_block
  block_wanted = limit_block (if eq_ℤ pkt.mode (pos 0) then 0 else pkt.block)

  unfoldable pub is_done : List ℕ → Bool
  unfolding block_wanted block_at
  is_done m =
      block_at l m (pos_part pkt.x) (pos_part pkt.y) (pos_part pkt.z) == block_wanted
      && not (eq_ℤ pkt.mode (pos 2))

  unfoldable pub edit_block : Edit → Edit
  edit_block e =
      let m = e.blocks in
      let x = pos_part pkt.x in
      let y = pos_part pkt.y in
      let z = pos_part pkt.z in
      let told = eq_ℤ pkt.mode (pos 2) in
      let p =
        make_plan l m x y z (record { b = block_wanted; new_below = no_block; told = told }) in
      let below = if y == 0 then 7 else limit_block (block_at l m x (y - 1) z) in
      carry_out l x y z (block_above l m x y z) below p e

  unfoldable pub update_block : Bool → Counted → Counted
  update_block loaded c =
      if is_refused loaded
      then c
      else if is_done c.edit.blocks
      then c
      else count_block block_wanted (record c { edit = edit_block c.edit })
