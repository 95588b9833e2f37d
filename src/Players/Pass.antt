-- ===== src/Players/Pass.antt =====
-- The loop of `check_other_users` over the ids, and `despawn_all_players`. A row is `uid_ren[i].uids`
-- with the slot of the id `i`.
use mcchost.Base.{ℕ, suc, false, none, List, [], ◌∷◌, ◌++◌, ◌==◌, if◌then◌else◌}
use mcchost.Base.Int.{pos}
use mcchost.Packet.Message.{Message, despawn}
use mcchost.Players.Slot.{ClientEntry, Slot, Pass, slot_changes, next_slot}

-- One row: nothing is done for this client's own user, `me`.
unfoldable pub row_changes : Pass → ℕ → (ℕ → ClientEntry) → ℕ → ℕ → Slot → List Message
row_changes p me users i uids s = if uids == me then [] else slot_changes p i uids (users uids) s

unfoldable pub row_then : Pass → ℕ → (ℕ → ClientEntry) → ℕ → ℕ → Slot → Slot
row_then p me users i uids s = if uids == me then s else next_slot p i uids (users uids) s

unfoldable pub check_rows : Pass → ℕ → (ℕ → ClientEntry) → ℕ → List (ℕ × Slot) → List Message
check_rows p me users i [] = []
check_rows p me users i ((uids, s) ∷ rows) =
    row_changes p me users i uids s ++ check_rows p me users (suc i) rows

unfoldable pub rows_then : Pass → ℕ → (ℕ → ClientEntry) → ℕ → List (ℕ × Slot) → List (ℕ × Slot)
rows_then p me users i [] = []
rows_then p me users i ((uids, s) ∷ rows) =
    (uids, row_then p me users i uids s) ∷ rows_then p me users (suc i) rows

unfoldable pub despawn_row : ℕ → Slot → List Message
despawn_row i s = if s.mine.visible then despawn (pos i) ∷ [] else []

unfoldable pub despawned : Slot → Slot
despawned s = record {
  mine = record s.mine {
    visible = false;
    posn_ = record s.mine.posn_ { valid = false };
    look_update_counter = 1;
  };
  was = none;
}

unfoldable pub despawn_all_players : ℕ → List (ℕ × Slot) → List Message
despawn_all_players i [] = []
despawn_all_players i ((uids, s) ∷ rows) = despawn_row i s ++ despawn_all_players (suc i) rows

unfoldable pub despawned_rows : List (ℕ × Slot) → List (ℕ × Slot)
despawned_rows [] = []
despawned_rows ((uids, s) ∷ rows) = (uids, despawned s) ∷ despawned_rows rows
