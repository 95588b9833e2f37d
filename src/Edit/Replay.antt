-- ===== src/Edit/Replay.antt =====
-- What the other players are told is what happened.
use mcchost.Base.{
  ℕ, zero, suc, ◌-◌, ◌≡◌, ◌∙◌, refl, sym, ap, Bool, not, ◌||◌, Option, none, some, Bool-cases,
  if_keeps, inl, inr, List, [], ◌∷◌, ◌++◌, leb, ◌==◌, if◌then◌else◌, get_or, set,
}
use mcchost.Request.Read.{SetBlock}
use mcchost.Edit.Level.{
  Level, world_pack, block_at, Change, send_update, send_setblock, Edit, tell, store,
  store_and_tell,
}
use mcchost.Edit.Sand.{
  Fall, find_bottom, settle_saved, move_down, fall, finish_fall, check_for_sand, with_block,
  with_air,
}
use mcchost.Edit.Place.{
  no_block, Plan, place_block, place_below, let_fall, let_fall_above, carry_out, Counted,
  count_block, is_refused, is_done, block_wanted, edit_block, update_block,
}

module _ (l : Level) where
  -- The level of a player who had `m` and hears of some changes.
  unfoldable pub replay : List ℕ → List Change → List ℕ
  replay m [] = m
  replay m (send_update x y z b ∷ cs) = replay (set m (world_pack l x y z) b) cs
  replay m (send_setblock x y z b ∷ cs) = replay m cs

  replay-append : (m : List ℕ) (xs ys : List Change) → replay m (xs ++ ys) ≡ replay (replay m xs) ys
  unfolding replay
  replay-append m [] ys = refl
  replay-append m (send_update x y z b ∷ xs) ys = replay-append (set m (world_pack l x y z) b) xs ys
  replay-append m (send_setblock x y z b ∷ xs) ys = replay-append m xs ys

  -- The others' level, from `m` on, is the server's.
  pub record InStep (m : List ℕ) (e : Edit) : Type 0 where
    pub replayed : replay m e.calls ≡ e.blocks

  -- One place is air on the server, and the others still see the block that was there.
  abbrev Behind : List ℕ → Edit → ℕ → ℕ → Type 0
  Behind m e i b = (set (replay m e.calls) i 0 ≡ e.blocks) × (get_or (replay m e.calls) i 0 ≡ b)

  tell-update :
      (m : List ℕ) (e : Edit) (x y z b : ℕ)
      → replay m (tell (send_update x y z b) e).calls
        ≡ set (replay m e.calls) (world_pack l x y z) b
  unfolding tell replay
  tell-update m e x y z b = replay-append m e.calls (send_update x y z b ∷ [])

  tell-InStep_setblock :
      (m : List ℕ) (e : Edit) (x y z b : ℕ) → InStep m e → InStep m (tell (send_setblock x y z b) e)
  unfolding tell replay
  tell-InStep_setblock m e x y z b h = record {
    replayed = replay-append m e.calls (send_setblock x y z b ∷ []) ∙ h.replayed;
  }

  store_and_tell-InStep :
      (m : List ℕ) (e : Edit) (x y z b : ℕ) → InStep m e → InStep m (store_and_tell l x y z b e)
  unfolding store_and_tell store
  store_and_tell-InStep m e x y z b h = record {
    replayed =
        tell-update m (store l x y z b e) x y z b
        ∙ ap (λ r. set r (world_pack l x y z) b) h.replayed;
  }

pub set_twice : (xs : List ℕ) (i a b : ℕ) → set (set xs i a) i b ≡ set xs i b
set_twice [] i a b = refl
set_twice (x ∷ xs) zero a b = refl
set_twice (x ∷ xs) (suc i) a b = ap (◌∷◌ x) (set_twice xs i a b)

pub set_back : (xs : List ℕ) (i : ℕ) → set xs i (get_or xs i 0) ≡ xs
set_back [] i = refl
set_back (x ∷ xs) zero = refl
set_back (x ∷ xs) (suc i) = ap (◌∷◌ x) (set_back xs i)

module _ (l : Level) (m : List ℕ) (x z : ℕ) where
  FallInStep : Fall → Type 0
  FallInStep f = elim f.saved [
    | none ↦ InStep l m f.edit
    | some s ↦ Behind l m f.edit (world_pack l x s.0 z) s.1
  ]

  settle_saved-InStep :
      (e : Edit) (saved : Option (ℕ × ℕ)) (new_y : ℕ)
      → FallInStep (record { edit = e; saved = saved })
      → InStep l m (settle_saved l x z new_y (record { edit = e; saved = saved }))
  unfolding settle_saved FallInStep store
  settle_saved-InStep e none new_y h = h
  settle_saved-InStep e (some s) new_y (off, was) =
      let i = world_pack l x s.0 z in
      let r = replay l m e.calls in
      elim (Bool-cases (s.0 == new_y)) [
        | inl same ↦ rw same (record {
          replayed =
              sym (set_back r i)
              ∙ ap (set r i) was
              ∙ sym (set_twice r i 0 s.1)
              ∙ ap (λ k. set k i s.1) off;
        })
        | inr other ↦ rw other (record { replayed = tell-update l m e x s.0 z 0 ∙ off })
      ]

  move_down-FallInStep :
      (new_y old_y b : ℕ) (f : Fall) → FallInStep f → FallInStep (move_down l x z new_y old_y b f)
  unfolding move_down FallInStep store block_at
  move_down-FallInStep new_y old_y b f h =
      let e = settle_saved l x z new_y f in
      let settled = settle_saved-InStep f.edit f.saved new_y h in
      elim (Bool-cases (block_at l e.blocks x new_y z == b)) [
        | inl same ↦ rw same (behind e settled)
        | inr other ↦ rw other (
            behind (store_and_tell l x new_y z b e)
              (store_and_tell-InStep l m e x new_y z b settled))
      ]
    where
      behind :
          (e : Edit)
          → InStep l m e
          → Behind l m
              (store l x old_y z 0 e)
              (world_pack l x old_y z)
              (get_or e.blocks (world_pack l x old_y z) 0)
      behind e h = (
        ap (λ r. set r (world_pack l x old_y z) 0) h.replayed,
        ap (λ r. get_or r (world_pack l x old_y z) 0) h.replayed,
      )

  with_block-FallInStep :
      (rest : ℕ → Fall → Fall) (air : ℕ) (f : Fall) (o : Option (ℕ × ℕ))
      → ((y : ℕ) (g : Fall) → FallInStep g → FallInStep (rest y g))
      → FallInStep f
      → FallInStep (with_block l x z rest air f o)
  unfolding with_block
  with_block-FallInStep rest air f none r h = h
  with_block-FallInStep rest air f (some found) r h =
      if_keeps FallInStep (l.blockdef found.1).fastfall_flag _ f
        (λ falls. r (suc found.0) _ (move_down-FallInStep air found.0 found.1 f h)) (λ stays. h)

  with_air-FallInStep :
      (rest : ℕ → ℕ → Fall → Fall) (old_y : ℕ) (f : Fall) (o : Option ℕ)
      → ((a y : ℕ) (g : Fall) → FallInStep g → FallInStep (rest a y g))
      → FallInStep f
      → FallInStep (with_air l x z rest old_y f o)
  unfolding with_air
  with_air-FallInStep rest old_y f none r h = h
  with_air-FallInStep rest old_y f (some air) r h =
      with_block-FallInStep (rest air) air f _ (r air) h

  fall-FallInStep :
      (n new_y old_y : ℕ) (f : Fall) → FallInStep f → FallInStep (fall l x z n new_y old_y f)
  unfolding fall
  fall-FallInStep zero new_y old_y f h = h
  fall-FallInStep (suc n) new_y old_y f h =
      if_keeps FallInStep (leb l.cells_y old_y) f _ (λ top. h)
        (λ below.
          with_air-FallInStep (λ a o g. fall l x z n a o g) old_y f _
            (λ a o g k. fall-FallInStep n a o g k) h)

  finish_fall-InStep :
      (e : Edit) (saved : Option (ℕ × ℕ))
      → FallInStep (record { edit = e; saved = saved })
      → InStep l m (finish_fall l x z (record { edit = e; saved = saved }))
  unfolding finish_fall FallInStep
  finish_fall-InStep e none h = h
  finish_fall-InStep e (some s) (off, was) = record { replayed = tell-update l m e x s.0 z 0 ∙ off }

  pub check_for_sand-InStep :
      (y : ℕ) (e : Edit) → InStep l m e → InStep l m (check_for_sand l x z y e)
  unfolding check_for_sand
  check_for_sand-InStep y e h =
      let f : Fall = record { edit = e; saved = none } in
      let n = find_bottom l x z e.blocks y in
      let after = fall-FallInStep (l.cells_y - n) n n f (unfold FallInStep in h) in
      if_keeps (InStep l m) (leb l.cells_x x || leb l.cells_y y || leb l.cells_z z) e _ (λ out. h)
        (λ inside. finish_fall-InStep _ _ after)

module _ (l : Level) (m : List ℕ) where
  let_fall-InStep :
      (x y z below b : ℕ) (e : Edit) → InStep l m e → InStep l m (let_fall l x y z below b e)
  unfolding let_fall
  let_fall-InStep x y z below b e h =
      if_keeps (InStep l m) _ _ e (λ falls. check_for_sand-InStep l m x z y e h) (λ stays. h)

  let_fall_above-InStep :
      (x y z above : ℕ) (e : Edit) → InStep l m e → InStep l m (let_fall_above l x y z above e)
  unfolding let_fall_above
  let_fall_above-InStep x y z above e h =
      if_keeps (InStep l m) _ _ e (λ falls. check_for_sand-InStep l m x z (suc y) e h) (λ stays. h)

  place_block-InStep :
      (x y z : ℕ) (p : Plan) (e : Edit) → InStep l m e → InStep l m (place_block l x y z p e)
  unfolding place_block
  place_block-InStep x y z p e h =
      if_keeps (InStep l m) (p.b == no_block) e _ (λ nothing. h)
        (λ something.
          if_keeps (InStep l m) (not (p.b == block_at l e.blocks x y z)) _
            (if p.told then tell (send_setblock x y z p.b) e else e)
            (λ new. store_and_tell-InStep l m e x y z p.b h)
            (λ old.
              if_keeps (InStep l m) p.told _ e (λ told. tell-InStep_setblock l m e x y z p.b h)
                (λ quiet. h)))

  place_below-InStep :
      (x y z : ℕ) (p : Plan) (e : Edit) → InStep l m e → InStep l m (place_below l x y z p e)
  unfolding place_below
  place_below-InStep x y z p e h =
      if_keeps (InStep l m) _ _ e (λ changes. store_and_tell-InStep l m e x (y - 1) z p.new_below h)
        (λ stays. h)

  carry_out-InStep :
      (x y z above below : ℕ) (p : Plan) (e : Edit)
      → InStep l m e
      → InStep l m (carry_out l x y z above below p e)
  unfolding carry_out
  carry_out-InStep x y z above below p e h = let_fall_above-InStep x y z above _ (
      let_fall-InStep x y z _ p.b _ (place_below-InStep x y z p _ (place_block-InStep x y z p e h)))

  edit_block-InStep : (pkt : SetBlock) (e : Edit) → InStep l m e → InStep l m (edit_block l pkt e)
  unfolding edit_block
  edit_block-InStep pkt e h = carry_out-InStep _ _ _ _ _ _ e h

  -- The same of the level beside the counters.
  record Kept (c : Counted) : Type 0 where
    kept : InStep l m c.edit

  count_block-Kept : (b : ℕ) (c : Counted) → Kept c → Kept (count_block b c)
  unfolding count_block
  count_block-Kept b c k =
      if_keeps Kept (b == 0) _ _ (λ air. record { kept = k.kept })
        (λ other. record { kept = k.kept })

  update_block-Kept :
      (pkt : SetBlock) (loaded : Bool) (c : Counted) → Kept c → Kept (update_block l pkt loaded c)
  unfolding update_block
  update_block-Kept pkt loaded c k =
      if_keeps Kept (is_refused l pkt loaded) c
        (if is_done l pkt c.edit.blocks
          then c
          else count_block (block_wanted l pkt) (record c { edit = edit_block l pkt c.edit }))
        (λ refused. k)
        (λ taken.
          if_keeps Kept (is_done l pkt c.edit.blocks) c _ (λ done. k)
            (λ new.
              count_block-Kept (block_wanted l pkt) (record c { edit = edit_block l pkt c.edit })
                (record { kept = edit_block-InStep pkt c.edit k.kept })))

  -- Whatever packet sets a block, whatever the definitions of the blocks are and whatever falls or
  -- grows: the changes that `update_block` sends to the other players, made in their order on the
  -- level as it was, give the level as it is, every block of it.
  pub replay-update_block :
      (pkt : SetBlock) (loaded : Bool) (c : Counted)
      → replay l m c.edit.calls ≡ c.edit.blocks
      → replay l m (update_block l pkt loaded c).edit.calls
        ≡ (update_block l pkt loaded c).edit.blocks
  replay-update_block pkt loaded c h =
      (update_block-Kept pkt loaded c (record { kept = record { replayed = h } })).kept.replayed
