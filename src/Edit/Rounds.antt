-- ===== src/Edit/Rounds.antt =====
-- The loop of a fall ends: every round leaves fewer heights to look at.
use mcchost.Base.{
  ◌-◌, ℕ, zero, suc, ◌+◌, ◌≤◌, ◌<◌, ◌≡◌, refl, ap, true, Option, none, some, ltb, leb,
  if◌then◌else◌, arith,
}
use mcchost.Edit.Level.{Level}
use mcchost.Edit.Sand.{find_air, Fall, with_block, with_air, fall}
use mcchost.Edit.Conserve.{BlockAt, find_block_at}

module _ (l : Level) (x z : ℕ) where
  -- Two continuations that agree above `old_y` make the same round.
  with_block-agree :
      (old_y from air : ℕ) (rest other : ℕ → Fall → Fall) (f : Fall) (o : Option (ℕ × ℕ))
      → ((y : ℕ) (g : Fall) → old_y < y → rest y g ≡ other y g)
      → old_y ≤ from
      → ((found : ℕ × ℕ) → o ≡ some found → BlockAt l x z f.edit.blocks from found)
      → with_block l x z rest air f o ≡ with_block l x z other air f o
  unfolding with_block
  with_block-agree old_y from air rest other f none r le at = refl
  with_block-agree old_y from air rest other f (some found) r le at =
      ap (λ g. if (l.blockdef found.1).fastfall_flag then g else f)
        (r (suc found.0) _ (omega (arith, le, (at found refl).above)))

  with_air-agree :
      (old_y : ℕ) (rest other : ℕ → ℕ → Fall → Fall) (f : Fall) (o : Option ℕ)
      → ((a y : ℕ) (g : Fall) → old_y < y → rest a y g ≡ other a y g)
      → with_air l x z rest old_y f o ≡ with_air l x z other old_y f o
  unfolding with_air
  with_air-agree old_y rest other f none r = refl
  with_air-agree old_y rest other f (some air) r =
      let from : ℕ = if ltb old_y air then air else old_y in
      with_block-agree old_y from air (rest air) (other air) f _ (r air) (ground arith)
        (λ found e. find_block_at l x z f.edit.blocks _ from found e)

  fall_top : (n new_y old_y : ℕ) (f : Fall) → l.cells_y ≤ old_y → fall l x z n new_y old_y f ≡ f
  unfolding fall
  fall_top zero new_y old_y f h = refl
  fall_top (suc n) new_y old_y f h =
      let top : leb l.cells_y old_y ≡ true = ground (arith, h) in rw top refl

  -- Rounds beyond the number of heights from `old_y` to the top of the level change nothing, so
  -- that the loop has come to its end after as many.
  pub fall_enough :
      (n m new_y old_y : ℕ) (f : Fall)
      → n ≤ m
      → l.cells_y ≤ old_y + n
      → fall l x z m new_y old_y f ≡ fall l x z n new_y old_y f
  unfolding fall
  fall_enough zero m new_y old_y f le h = fall_top m new_y old_y f (omega (arith, h))
  fall_enough (suc n) zero new_y old_y f le h = absurd (omega (arith, le))
  fall_enough (suc n) (suc m) new_y old_y f le h =
      ap (λ g. if leb l.cells_y old_y then f else g)
        (with_air-agree old_y (λ a o g. fall l x z m a o g) (λ a o g. fall l x z n a o g) f
          (find_air l x z f.edit.blocks (l.cells_y - new_y) new_y)
          (λ a y g above. fall_enough n m a y g (omega (arith, le)) (omega (arith, h, above))))
