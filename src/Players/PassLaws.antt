-- ===== src/Players/PassLaws.antt =====
-- The client after a pass over all ids.
use mcchost.Base.{
  ℕ, zero, suc, ◌+◌, ◌<◌, ◌≡◌, ◌≢◌, ◌∙◌, refl, sym, ap, subst, Bool, true, false, not, ◌&&◌, ◌||◌,
  Option, none, some, List, [], ◌∷◌, ◌++◌, ◌==◌, if◌then◌else◌, Bool-cases, inl, inr, arith,
}
use mcchost.Base.Int.{ℤ, pos}
use mcchost.Packet.Config.{Config}
use mcchost.Packet.Message.{
  Message, addplayername, removeplayername, despawn, addentity, posn, changemodel,
}
use mcchost.Packet.Send.{Posn}
use mcchost.Chat.Colour.{Bytes}
use mcchost.Players.Slot.{
  ClientEntry, Slot, Pass, is_empty, is_visible, list_changes, upd_flg, gone_changes,
  entity_changes, model_changes, slot_changes, next_slot,
}
use mcchost.Players.View.{View, hear, hear_all}
use mcchost.Players.Heard.{heard, hear_all-append, list_flg}
use mcchost.Players.Mirror.{Looks, HasLook, Mirrors, Shows, slot_changes-Shows}
use mcchost.Players.Quiet.{next_slot-Mirrors}
use mcchost.Players.Pass.{row_changes, row_then, check_rows, rows_then}

-- The row of an id, if there is one.
abbrev pub row_at : ℕ → List (ℕ × Slot) → Option (ℕ × Slot)
row_at k [] = none
row_at zero (r ∷ rows) = some r
row_at (suc k) (r ∷ rows) = row_at k rows

module _ (cfg : Config) (text : Bytes → Bytes) (block_convert : ℕ → ℕ) where
  -- Messages that another id does not hear.
  unfoldable pub AreDeaf : ℕ → List Message → Type 0
  AreDeaf j ms = (v : View) → heard cfg text block_convert j ms v ≡ v

  pub deaf_append :
      (j : ℕ) (xs ys : List Message) → AreDeaf j xs → AreDeaf j ys → AreDeaf j (xs ++ ys)
  unfolding AreDeaf
  deaf_append j xs ys h k v =
      hear_all-append cfg text block_convert j xs ys v
      ∙ ap (heard cfg text block_convert j ys) (h v)
      ∙ k v

  pub deaf_nil : (j : ℕ) → AreDeaf j []
  unfolding AreDeaf hear_all
  deaf_nil j v = refl

  module _ (i j : ℕ) (h : (i == j) ≡ false) where
    deaf_add : (n l g : Bytes) (k : ℤ) → AreDeaf j (addplayername (pos i) n l g k ∷ [])
    unfolding AreDeaf hear_all hear
    deaf_add n l g k v = rw h refl

    deaf_remove : AreDeaf j (removeplayername (pos i) ∷ [])
    unfolding AreDeaf hear_all hear
    deaf_remove v = rw h refl

    pub deaf_despawn : AreDeaf j (despawn (pos i) ∷ [])
    unfolding AreDeaf hear_all hear
    deaf_despawn v = rw h refl

    deaf_entity :
        (n k : Bytes) (to : Posn) (o : Option Posn) (to2 : Posn)
        → AreDeaf j (addentity (pos i) n k to ∷ posn (pos i) o to2 ∷ [])
    unfolding AreDeaf hear_all hear
    deaf_entity n k to o to2 v = rw h refl

    deaf_posn : (o : Option Posn) (to : Posn) → AreDeaf j (posn (pos i) o to ∷ [])
    unfolding AreDeaf hear_all hear
    deaf_posn o to v = rw h refl

    deaf_model : (m : Bytes) → AreDeaf j (changemodel (pos i) m ∷ [])
    unfolding AreDeaf hear_all hear
    deaf_model m v = rw h refl

    module _ (p : Pass) (uids : ℕ) (c : ClientEntry) (s : Slot) where
      list_deaf : AreDeaf j (list_changes p i uids c s)
      unfolding list_changes
      list_deaf = elim (Bool-cases (not p.extn_extplayerlist)) [
        | inl off ↦ rw off (deaf_nil j)
        | inr on ↦ elim (Bool-cases (not c.state.active && s.mine.active)) [
          | inl left ↦ rw (on, left) deaf_remove
          | inr here ↦ elim (Bool-cases (list_flg cfg text block_convert uids c s)) [
            | inl sent ↦ rw (on, here, sent) (deaf_add _ _ _ _)
            | inr same ↦ rw (on, here, same) (deaf_nil j)
          ]
        ]
      ]

      gone_deaf : AreDeaf j (gone_changes p i uids c s)
      unfolding gone_changes
      gone_deaf =
          elim (Bool-cases (upd_flg p uids c s || (not (is_visible p c) && s.mine.visible))) [
            | inl gone ↦ rw gone deaf_despawn
            | inr stays ↦ rw stays (deaf_nil j)
          ]

      entity_deaf : AreDeaf j (entity_changes p i uids c s)
      unfolding entity_changes
      entity_deaf = elim (Bool-cases (is_visible p c)) [
        | inr not_seen ↦ rw not_seen (deaf_nil j)
        | inl seen ↦ elim (Bool-cases (upd_flg p uids c s || not s.mine.visible)) [
          | inl fresh ↦ rw (seen, fresh) (deaf_entity _ _ _ _ _)
          | inr known ↦ rw (seen, known) (deaf_posn _ _)
        ]
      ]

      model_deaf : AreDeaf j (model_changes p i uids c s)
      unfolding model_changes
      model_deaf =
          elim (Bool-cases
            (upd_flg p uids c s && (not (is_empty c.modelname) || s.mine.model_set))) [
              | inl sent ↦ rw sent (deaf_model _)
              | inr same ↦ rw same (deaf_nil j)
            ]

      slot_deaf : AreDeaf j (slot_changes p i uids c s)
      unfolding slot_changes
      slot_deaf =
          deaf_append j _ _ list_deaf
            (deaf_append j _ _ gone_deaf (deaf_append j _ _ entity_deaf model_deaf))

  row_deaf :
      (i j : ℕ) (b : Bool) (ms : List Message) → AreDeaf j ms → AreDeaf j (if b then [] else ms)
  row_deaf i j true ms h = deaf_nil j
  row_deaf i j false ms h = h

  pub from_deaf :
      (j : ℕ) (ms : List Message) (v : View)
      → AreDeaf j ms
      → heard cfg text block_convert j ms v ≡ v
  unfolding AreDeaf
  from_deaf j ms v h = h v

  module _ (p : Pass) (me : ℕ) (users : ℕ → ClientEntry) where
    rows_deaf :
        (i j : ℕ) (rows : List (ℕ × Slot)) → j < i → AreDeaf j (check_rows p me users i rows)
    unfolding check_rows row_changes
    rows_deaf i j [] h = deaf_nil j
    rows_deaf i j ((uids, s) ∷ rows) h =
        deaf_append j _ _
          (row_deaf i j (uids == me) _ (slot_deaf i j (ground (arith, h)) p uids (users uids) s))
          (rows_deaf (suc i) j rows (omega (arith, h)))

    abbrev pub heard_pass : ℕ → ℕ → List (ℕ × Slot) → View → View
    heard_pass i j rows v = heard cfg text block_convert j (check_rows p me users i rows) v

    pub heard_row :
        (i k j uids : ℕ) (s : Slot) (rows : List (ℕ × Slot)) (v : View)
        → j ≡ i + k
        → row_at k rows ≡ some (uids, s)
        → uids ≢ me
        → (heard_pass i j rows v
            ≡ heard cfg text block_convert j (slot_changes p j uids (users uids) s) v)
          × (row_at k (rows_then p me users i rows)
              ≡ some (uids, next_slot p j uids (users uids) s))
    unfolding check_rows rows_then row_changes row_then
    heard_row i k j uids s [] v q e ne = let never : ⊥ = cc in elim never [ ]
    heard_row i zero j uids s ((u, t) ∷ rows) v q e ne =
        let same : u ≡ uids = cc in
        let same_slot : t ≡ s = cc in
        let other : (uids == me) ≡ false = ground (arith, ne) in
        let here : j ≡ i = omega (arith, q) in
        rw (same, same_slot, other, here)
          (
            hear_all-append cfg text block_convert i (slot_changes p i uids (users uids) s) _ v
                ∙ from_deaf i _ _ (rows_deaf (suc i) i rows (omega arith)),
            refl,
          )
    heard_row i (suc k) j uids s ((u, t) ∷ rows) v q e ne =
        let on = heard_row (suc i) k j uids s rows v (omega (arith, q)) e ne in
        let first = if u == me then [] else slot_changes p i u (users u) t in
        (
          hear_all-append cfg text block_convert j first _ v
              ∙ ap (heard cfg text block_convert j (check_rows p me users (suc i) rows)) (
                  from_deaf j first v
                    (row_deaf i j (u == me) _ (slot_deaf i j (ground (arith, q)) p u (users u) t)))
              ∙ on.0,
          on.1,
        )

    -- A pass of `check_other_users`: whatever the other rows are, the client shows the user of a row
    -- that is not its own as the table has it, by name and figure, and the slot says so again.
    pub check_rows-Shows :
        (looks : Looks) (i uids : ℕ) (s : Slot) (rows : List (ℕ × Slot)) (v : View)
        → row_at i rows ≡ some (uids, s)
        → uids ≢ me
        → HasLook cfg text looks p uids (users uids)
        → Mirrors looks p v s
        → Shows looks p uids (users uids) (heard_pass 0 i rows v)
          × ((t : Slot) × (row_at i (rows_then p me users 0 rows) ≡ some (uids, t))
              × Mirrors looks p (heard_pass 0 i rows v) t)
    check_rows-Shows looks i uids s rows v e ne look mirror =
        let row = heard_row 0 i i uids s rows v (omega arith) e ne in
        (
          subst (Shows looks p uids (users uids)) (sym row.0) (
              slot_changes-Shows cfg text block_convert looks p i uids (users uids) s v look
                mirror),
          (
            next_slot p i uids (users uids) s,
            row.1,
            subst (λ (w : View). Mirrors looks p w (next_slot p i uids (users uids) s)) (sym row.0)
                (next_slot-Mirrors cfg text block_convert looks p i uids (users uids) s v look
                  mirror),
          ),
        )
