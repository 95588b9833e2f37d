-- ===== src/Edit/Conserve.antt =====
-- Falling blocks are neither lost nor made, and the fall comes to an end.
use mcchost.Base.{
  ℕ, zero, suc, ◌-◌, ◌≤◌, ◌<◌, ◌≡◌, ◌≢◌, ◌∙◌, refl, sym, ap, ◌||◌, Option, none, some, Bool-cases,
  if_keeps, inl, inr, List, ltb, leb, ◌==◌, ==_iff, if◌then◌else◌, get_or, set, arith, subst,
}
use mcchost.Edit.Level.{Level, world_pack, limit_block, block_at, Edit, tell, store, store_and_tell}
use mcchost.Edit.Sand.{
  Fall, solid_at, find_air, find_block, find_bottom, settle_saved, move_down, with_block, with_air,
  fall, finish_fall, check_for_sand,
}
use mcchost.Edit.Replay.{set_twice, set_back}
use mcchost.Edit.Count.{count, count_swap, IsDefined, set-IsDefined}

pub record AirAt (l : Level) (x z : ℕ) (m : List ℕ) (y a : ℕ) : Type 0 where
  pub is_air : solid_at l x z m a ≡ 0
  pub above : y ≤ a

pub record BlockAt (l : Level) (x z : ℕ) (m : List ℕ) (y : ℕ) (f : ℕ × ℕ) : Type 0 where
  pub is_block : solid_at l x z m f.0 ≡ f.1
  pub not_air : f.1 ≢ 0
  pub above : y ≤ f.0

module _ (l : Level) (x z : ℕ) where
  find_air_at : (m : List ℕ) (n y a : ℕ) → find_air l x z m n y ≡ some a → AirAt l x z m y a
  unfolding find_air
  find_air_at m zero y a h = absurd (ground (arith, h))
  find_air_at m (suc n) y a h = elim (Bool-cases (solid_at l x z m y == 0)) [
    | inl air ↦
        let here : y ≡ a = ground (arith, h, air) in
        record { is_air = ground (arith, air, here); above = omega (arith, here) }
    | inr other ↦
        let later = find_air_at m n (suc y) a (ground (arith, h, other)) in
        record { is_air = later.is_air; above = omega (arith, later.above) }
  ]

  pub find_block_at :
      (m : List ℕ) (n y : ℕ) (f : ℕ × ℕ) → find_block l x z m n y ≡ some f → BlockAt l x z m y f
  unfolding find_block
  find_block_at m zero y f h = absurd (ground (arith, h))
  find_block_at m (suc n) y f h = elim (Bool-cases (solid_at l x z m y == 0)) [
    | inl air ↦
        let later = find_block_at m n (suc y) f (ground (arith, h, air)) in
        record {
          is_block = later.is_block;
          not_air = later.not_air;
          above = omega (arith, later.above);
        }
    | inr other ↦
        let found : some (y, solid_at l x z m y) ≡ some f = ground (arith, h, other) in
        let height : y ≡ f.0 = ap (λ o. elim o [ none ↦ y | some p ↦ p.0 ]) found in
        let block : solid_at l x z m y ≡ f.1 =
          ap (λ o. elim o [ none ↦ solid_at l x z m y | some p ↦ p.1 ]) found in
        record {
          is_block = sym (ap (solid_at l x z m) height) ∙ block;
          not_air = ground (arith, other, block);
          above = omega (arith, height);
        }
  ]

  world_pack_mono : (a b : ℕ) → a ≤ b → world_pack l x a z ≤ world_pack l x b z
  unfolding world_pack
  world_pack_mono a b le = grind arith

  -- Wherever the block before was saved, the move writes two places.
  settle_saved-blocks :
      (air b : ℕ) (e : Edit) (saved : Option (ℕ × ℕ))
      → set
          (settle_saved l x z air (record { edit = e; saved = saved })).blocks
          (world_pack l x air z)
          b
        ≡ set e.blocks (world_pack l x air z) b
  unfolding settle_saved store tell
  settle_saved-blocks air b e none = refl
  settle_saved-blocks air b e (some s) = elim (Bool-cases (s.0 == air)) [
    | inl same ↦
        let at : s.0 ≡ air = omega (arith, (==_iff s.0 air).0 same) in
        rw same (
          ap (λ y. set (set e.blocks (world_pack l x s.0 z) s.1) (world_pack l x y z) b) (sym at)
          ∙ set_twice e.blocks (world_pack l x s.0 z) s.1 b
          ∙ ap (λ y. set e.blocks (world_pack l x y z) b) at)
    | inr other ↦ rw other refl
  ]

  filled-blocks :
      (air b : ℕ) (e : Edit)
      → (if block_at l e.blocks x air z == b then e else store_and_tell l x air z b e).blocks
        ≡ set e.blocks (world_pack l x air z) b
  unfolding block_at store_and_tell store tell
  filled-blocks air b e = elim (Bool-cases (block_at l e.blocks x air z == b)) [
    | inl same ↦ rw same (
        sym (set_back e.blocks (world_pack l x air z))
        ∙ ap (set e.blocks (world_pack l x air z)) ((==_iff _ b).0 same))
    | inr other ↦ rw other refl
  ]

  move_down-blocks :
      (air old_y b : ℕ) (f : Fall)
      → (move_down l x z air old_y b f).edit.blocks
        ≡ set (set f.edit.blocks (world_pack l x air z) b) (world_pack l x old_y z) 0
  unfolding move_down store
  move_down-blocks air old_y b f =
      ap (λ m. set m (world_pack l x old_y z) 0)
        (filled-blocks air b (settle_saved l x z air f) ∙ settle_saved-blocks air b f.edit f.saved)

solid_at_lem :
    (l : Level) (x z : ℕ) (m : List ℕ) (y : ℕ)
    → IsDefined m
    → solid_at l x z m y ≡ get_or m (world_pack l x y z) 0
unfolding solid_at limit_block block_at
solid_at_lem l x z m y d = ground (arith, d (world_pack l x y z))

-- Every round keeps the number of places of each block.
module _ (l : Level) (x z v n : ℕ) where
  record Same (f : Fall) : Type 0 where
    counts : count v f.edit.blocks ≡ n
    defined : IsDefined f.edit.blocks

  move_down-Same :
      (from air : ℕ) (found : ℕ × ℕ) (f : Fall)
      → solid_at l x z f.edit.blocks air ≡ 0
      → air ≤ from
      → BlockAt l x z f.edit.blocks from found
      → Same f
      → Same (move_down l x z air found.0 found.1 f)
  move_down-Same from air found f empty le at h =
      let m = f.edit.blocks in
      let i = world_pack l x air z in
      let j = world_pack l x found.0 z in
      let moved = move_down-blocks l x z air found.0 found.1 f in
      let low = sym (solid_at_lem l x z m air h.defined) ∙ empty in
      let high = sym (solid_at_lem l x z m found.0 h.defined) ∙ at.is_block in
      let order = world_pack_mono l x z air found.0 (omega (arith, le, at.above)) in
      record {
        counts =
            ap (count v) moved ∙ count_swap v m i j found.1 order low high at.not_air ∙ h.counts;
        defined = subst IsDefined (sym moved) (
            set-IsDefined (set m i found.1) j 0 (omega arith)
              (set-IsDefined m i found.1 (subst (λ b. b < 1024) high (h.defined j)) h.defined));
      }

  with_block-Same :
      (rest : ℕ → Fall → Fall) (from air : ℕ) (f : Fall) (o : Option (ℕ × ℕ))
      → ((y : ℕ) (g : Fall) → Same g → Same (rest y g))
      → solid_at l x z f.edit.blocks air ≡ 0
      → air ≤ from
      → ((found : ℕ × ℕ) → o ≡ some found → BlockAt l x z f.edit.blocks from found)
      → Same f
      → Same (with_block l x z rest air f o)
  unfolding with_block
  with_block-Same rest from air f none r empty le at h = h
  with_block-Same rest from air f (some found) r empty le at h =
      if_keeps Same (l.blockdef found.1).fastfall_flag _ f
        (λ falls. r (suc found.0) _ (move_down-Same from air found f empty le (at found refl) h))
        (λ stays. h)

  with_air-Same :
      (rest : ℕ → ℕ → Fall → Fall) (new_y old_y : ℕ) (f : Fall) (o : Option ℕ)
      → ((a y : ℕ) (g : Fall) → Same g → Same (rest a y g))
      → ((a : ℕ) → o ≡ some a → AirAt l x z f.edit.blocks new_y a)
      → Same f
      → Same (with_air l x z rest old_y f o)
  unfolding with_air
  with_air-Same rest new_y old_y f none r at h = h
  with_air-Same rest new_y old_y f (some air) r at h =
      let from : ℕ = if ltb old_y air then air else old_y in
      with_block-Same (rest air) from air f _ (r air) (at air refl).is_air (ground arith)
        (λ found e. find_block_at l x z f.edit.blocks _ from found e) h

  fall-Same : (rounds new_y old_y : ℕ) (f : Fall) → Same f → Same (fall l x z rounds new_y old_y f)
  unfolding fall
  fall-Same zero new_y old_y f h = h
  fall-Same (suc rounds) new_y old_y f h =
      if_keeps Same (leb l.cells_y old_y) f _ (λ top. h)
        (λ below.
          with_air-Same (λ a o g. fall l x z rounds a o g) new_y old_y f _
            (λ a o g k. fall-Same rounds a o g k)
            (λ a e. find_air_at l x z f.edit.blocks _ new_y a e) h)

  finish_fall-Same :
      (e : Edit) (saved : Option (ℕ × ℕ))
      → Same (record { edit = e; saved = saved })
      → count v (finish_fall l x z (record { edit = e; saved = saved })).blocks ≡ n
  unfolding finish_fall tell
  finish_fall-Same e none h = h.counts
  finish_fall-Same e (some s) h = h.counts

-- On a level of defined blocks a fall takes no block from the level and adds none: every block has
-- as many places after it as before.
pub check_for_sand-count :
    (l : Level) (x z y v : ℕ) (e : Edit)
    → IsDefined e.blocks
    → count v (check_for_sand l x z y e).blocks ≡ count v e.blocks
unfolding check_for_sand
check_for_sand-count l x z y v e d =
    let n = find_bottom l x z e.blocks y in
    let before : Same l x z v (count v e.blocks) (record { edit = e; saved = none }) = record {
      counts = refl;
      defined = d;
    } in
    let after = fall-Same l x z v (count v e.blocks) (l.cells_y - n) n n _ before in
    elim (Bool-cases (leb l.cells_x x || leb l.cells_y y || leb l.cells_z z)) [
      | inl out ↦ rw out refl
      | inr inside ↦ rw inside (finish_fall-Same l x z v (count v e.blocks) _ _ after)
    ]
