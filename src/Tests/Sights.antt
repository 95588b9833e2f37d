-- ===== src/Tests/Sights.antt =====
-- The other players at a client, after passes over two ids.
use mcchost.Base.{ℕ, ◌≡◌, refl, true, false, none, some, List, [], ◌∷◌, arith}
use mcchost.Base.Int.{pos}
use mcchost.Packet.Send.{Posn}
use mcchost.Packet.Message.{Message, addplayername, addentity, posn}
use mcchost.Chat.Colour.{Bytes, names_colour, colour_of, is_digit, revert_amp_to_perc}
use mcchost.Players.Slot.{
  ClientState, ClientEntry, Slot, Pass, is_uid, is_here, is_visible, hide_location, group_name,
  list_name, entity_name, skin_name, list_changes, upd_flg, gone_changes, entity_changes,
  model_changes, slot_changes,
}
use mcchost.Players.View.{View, place_of}
use mcchost.Players.Mirror.{Looks, HasLook, Mirrors, Shows}
use mcchost.Players.Pass.{check_rows, rows_then, row_changes, despawn_all_players, despawned_rows}
use mcchost.Players.PassLaws.{row_at}
use mcchost.Players.Despawn.{despawn_all_players-Mirrors}
use mcchost.Players.Heard.{heard}
use mcchost.Players.Delivered.{IsOwnId, delivered_pass, check_rows-delivered}
use mcchost.Packet.Config.{Config}
use mcchost.Tests.Packets.{cpe_client}
use mcchost.Tests.Colours.{no_colours}

abbrev no_text : Bytes → Bytes
no_text bs = bs

abbrev same_block : ℕ → ℕ
same_block b = b

abbrev a_pass : Pass
a_pass = record {
  textcolour = no_colours;
  sprintf_d = λ n. [];
  levels = λ n. record { level = b'm' ∷ []; loaded = true; backup_id = pos 0 };
  extn_extplayerlist = true;
  classic_multimap = false;
  my_level = pos 3;
}

abbrev at_spawn : Posn
at_spawn = record { x = pos 320; y = pos 64; z = pos 320; h = pos 0; v = pos 0; valid = true }

abbrev ann : ClientEntry
ann = record {
  name = b'A' ∷ [];
  listname = b'A' ∷ [];
  skinname = [];
  modelname = [];
  state = record {
    on_level = pos 3;
    posn_ = at_spawn;
    active = true;
    visible = false;
    is_afk = false;
    look_update_counter = 1;
    model_set = false;
  };
  level_bkp_id = pos 0;
  name_colour = b'a';
  authenticated = true;
}

abbrev no_state : ClientState
no_state = record {
  on_level = pos 0;
  posn_ = record at_spawn { valid = false };
  active = false;
  visible = false;
  is_afk = false;
  look_update_counter = 0;
  model_set = false;
}

abbrev fresh_slot : Slot
fresh_slot = record { mine = no_state; was = some 0 }

-- This client is user 0; user 1 is in the row 1.
abbrev two_rows : List (ℕ × Slot)
two_rows = (0, fresh_slot) ∷ (1, fresh_slot) ∷ []

abbrev all_ann : ℕ → ClientEntry
all_ann uids = ann

abbrev ann_looks : Looks
ann_looks = record {
  figure_of = λ u k. record { figure_name = b'&' ∷ b'a' ∷ b'A' ∷ []; skin = b'A' ∷ []; model = [] };
  listing_of = λ u k a. (b'A' ∷ [], b'A' ∷ []);
}

abbrev nothing_shown : View
nothing_shown = record { listed = none; figure = none; place = place_of at_spawn }

abbrev user_0 : Config
user_0 = record cpe_client { my_user_no = pos 0 }

ann-HasLook : HasLook user_0 no_text ann_looks a_pass 1 ann
unfolding entity_name skin_name list_name revert_amp_to_perc names_colour colour_of is_digit
ann-HasLook = record { figure_lem = refl; listing_lem = refl }

fresh-Mirrors : Mirrors ann_looks a_pass nothing_shown fresh_slot
fresh-Mirrors = record {
  shown_figure = λ seen. (let never : ⊥ = cc in elim never [ ]);
  no_figure = λ h. refl;
  no_name = λ ext off. refl;
  shown_name = λ ext on u e. (let never : ⊥ = cc in elim never [ ]);
}

pass_seen :
    check_rows a_pass 0 all_ann 0 two_rows
    ≡ addplayername (pos 1) (b'A' ∷ []) (b'A' ∷ []) (b'O' ∷ b'n' ∷ b' ' ∷ b'm' ∷ []) (pos 0)
      ∷ Message.despawn (pos 1)
      ∷ addentity (pos 1) (b'&' ∷ b'a' ∷ b'A' ∷ []) (b'A' ∷ []) at_spawn
      ∷ posn (pos 1) none at_spawn
      ∷ []
unfolding check_rows row_changes slot_changes list_changes gone_changes entity_changes model_changes
    upd_flg is_visible is_here hide_location is_uid group_name list_name entity_name skin_name
    revert_amp_to_perc names_colour colour_of is_digit
pass_seen = refl

id_1 : IsOwnId user_0 1
id_1 = record { low = omega arith; small = omega arith; other = refl }

check_rows-delivered_example :
    Shows ann_looks a_pass 1 ann (
      delivered_pass user_0 no_text same_block 1 id_1 a_pass 0 all_ann 1 fresh_slot two_rows
        nothing_shown)
    × ((t : Slot) × (row_at 1 (rows_then a_pass 0 all_ann 0 two_rows) ≡ some (1, t))
        × Mirrors ann_looks a_pass
            (delivered_pass user_0 no_text same_block 1 id_1 a_pass 0 all_ann 1 fresh_slot two_rows
              nothing_shown)
            t)
check_rows-delivered_example =
    check_rows-delivered user_0 no_text same_block 1 id_1 a_pass 0 all_ann 1 fresh_slot two_rows
      nothing_shown ann_looks refl (omega arith) ann-HasLook fresh-Mirrors

despawn_all_players-Mirrors_example :
    (t : Slot) × ((heard cpe_client no_text same_block 1
        (despawn_all_players 0 two_rows)
        nothing_shown).figure
      ≡ none)
    × (row_at 1 (despawned_rows two_rows) ≡ some (1, t))
    × Mirrors ann_looks a_pass
        (heard cpe_client no_text same_block 1 (despawn_all_players 0 two_rows) nothing_shown)
        t
despawn_all_players-Mirrors_example =
    despawn_all_players-Mirrors cpe_client no_text same_block ann_looks a_pass 1 1 fresh_slot
      two_rows nothing_shown refl fresh-Mirrors

-- The client has the player at the spawn, and the player has gone 31 units.
abbrev gone_on : ℕ → ClientEntry
gone_on uids = record ann { state = record ann.state { posn_ = record at_spawn { x = pos 351 } } }

abbrev seen_rows : List (ℕ × Slot)
seen_rows =
    (0, fresh_slot) ∷ (1, record { mine = record ann.state { visible = true }; was = some 1 }) ∷ []

abbrev seen_slot : Slot
seen_slot = record { mine = record ann.state { visible = true }; was = some 1 }
