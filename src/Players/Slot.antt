-- ===== src/Players/Slot.antt =====
-- `check_other_users`: what a pass sends to the client for one id. A `uint8_t` flag is a Bool, a
-- string its bytes before the NUL, and -1 in `was_uid_ren` no value.
use mcchost.Base.{
  ℕ, Bool, true, false, not, ◌&&◌, ◌||◌, Option, none, some, List, [], ◌∷◌, ◌++◌, ◌==◌,
  if◌then◌else◌,
}
use mcchost.Base.Int.{ℤ, pos, negsuc, ltb_ℤ, eq_ℤ}
use mcchost.Packet.Send.{Posn}
use mcchost.Packet.Message.{
  Message, addplayername, removeplayername, despawn, addentity, posn, changemodel,
}
use mcchost.Chat.Colour.{Bytes, TextColour, revert_amp_to_perc}

-- `client_state_entry_t`.
pub record ClientState : Type 0 where
  pub on_level : ℤ
  pub posn_ : Posn
  pub active : Bool
  pub visible : Bool
  pub is_afk : Bool
  pub look_update_counter : ℕ
  pub model_set : Bool

-- `client_entry_t`, where the pass reads it.
pub record ClientEntry : Type 0 where
  pub name : Bytes
  pub listname : Bytes
  pub skinname : Bytes
  pub modelname : Bytes
  pub state : ClientState
  pub level_bkp_id : ℤ
  pub name_colour : ℕ
  pub authenticated : Bool

-- `client_level_t`, where the pass reads it.
pub record ClientLevel : Type 0 where
  pub level : Bytes
  pub loaded : Bool
  pub backup_id : ℤ

-- `myuser[i]` and `was_uid_ren[i]`.
pub record Slot : Type 0 where
  pub mine : ClientState
  pub was : Option ℕ

-- What stays fixed in a pass.
pub record Pass : Type 0 where
  pub textcolour : ℕ → TextColour
  pub sprintf_d : ℤ → Bytes
  pub levels : ℤ → ClientLevel
  pub extn_extplayerlist : Bool
  pub classic_multimap : Bool
  pub my_level : ℤ

unfoldable pub is_uid : Option ℕ → ℕ → Bool
is_uid none uids = false
is_uid (some u) uids = u == uids

abbrev pub is_empty : Bytes → Bool
is_empty [] = true
is_empty (c ∷ bs) = false

-- The place of a player on another level: far outside.
abbrev pub hide : Posn
hide = record {
  x = negsuc 32767;
  y = pos 32736;
  z = negsuc 32767;
  h = pos 0;
  v = pos 0;
  valid = true;
}

-- The player is on this level.
unfoldable pub is_here : Pass → ClientEntry → Bool
is_here p c =
    c.state.posn_.valid && eq_ℤ c.state.on_level p.my_level && not (ltb_ℤ c.level_bkp_id (pos 0))

unfoldable pub is_visible : Pass → ClientEntry → Bool
is_visible p c = c.state.active && c.authenticated && (p.classic_multimap || is_here p c)

unfoldable pub hide_location : Pass → ClientEntry → Bool
hide_location p c = p.classic_multimap && not (is_here p c)

unfoldable pub group_name : Pass → ℤ → Bytes
group_name p on_level =
    let l = p.levels on_level in
    let nowhere = b'N' ∷ b'o' ∷ b'w' ∷ b'h' ∷ b'e' ∷ b'r' ∷ b'e' ∷ [] in
    if ltb_ℤ on_level (pos 0) || not (ltb_ℤ on_level (pos 256)) || not l.loaded
    then nowhere
    else if eq_ℤ l.backup_id (pos 0)
    then b'O' ∷ b'n' ∷ b' ' ∷ l.level
    else if ltb_ℤ (pos 0) l.backup_id
    then b'M'
      ∷ b'u'
      ∷ b's'
      ∷ b'e'
      ∷ b'u'
      ∷ b'm'
      ∷ b' '
      ∷ (p.sprintf_d l.backup_id ++ b' ' ∷ l.level)
    else nowhere

unfoldable pub list_name : ClientEntry → Bool → Bytes
list_name c is_afk =
    c.listname
    ++ (if is_afk then b' ' ∷ b'&' ∷ b'7' ∷ b'(' ∷ b'A' ∷ b'F' ∷ b'K' ∷ b')' ∷ [] else [])

unfoldable pub entity_name : Pass → ClientEntry → Bytes
entity_name p c =
    revert_amp_to_perc p.textcolour
      (b'&' ∷ (if c.name_colour == 0 then b'7' else c.name_colour) ∷ c.name)

unfoldable pub skin_name : ClientEntry → Bytes
skin_name c = if is_empty c.skinname then c.name else c.skinname

-- The player list, for a client with ExtPlayerList: the messages for id `i` and user `uids`.
unfoldable pub list_changes : Pass → ℕ → ℕ → ClientEntry → Slot → List Message
list_changes p i uids c s =
    if not p.extn_extplayerlist
    then []
    else if not c.state.active && s.mine.active
    then removeplayername (pos i) ∷ []
    else if c.state.active
        && (not s.mine.active
            || not (s.mine.look_update_counter == c.state.look_update_counter)
            || not (eq_ℤ s.mine.on_level c.state.on_level)
            || (if s.mine.is_afk then not c.state.is_afk else c.state.is_afk)
            || not (is_uid s.was uids))
    then addplayername (pos i) c.name (list_name c c.state.is_afk) (group_name p c.state.on_level)
        (pos 0)
      ∷ []
    else []

-- The look has changed, or has to be sent.
unfoldable pub upd_flg : Pass → ℕ → ClientEntry → Slot → Bool
upd_flg p uids c s =
    (s.mine.visible && not (c.state.look_update_counter == s.mine.look_update_counter))
    || (is_visible p c && not s.mine.visible)
    || (elim s.was [ none ↦ false | some u ↦ not (u == uids) ])

unfoldable pub gone_changes : Pass → ℕ → ℕ → ClientEntry → Slot → List Message
gone_changes p i uids c s =
    if upd_flg p uids c s || (not (is_visible p c) && s.mine.visible)
    then despawn (pos i) ∷ []
    else []

unfoldable pub entity_changes : Pass → ℕ → ℕ → ClientEntry → Slot → List Message
entity_changes p i uids c s =
    let to = if hide_location p c then hide else c.state.posn_ in
    if not (is_visible p c)
    then []
    else if upd_flg p uids c s || not s.mine.visible
    then addentity (pos i) (entity_name p c) (skin_name c) to ∷ posn (pos i) none to ∷ []
    else posn (pos i) (if hide_location p c then none else some s.mine.posn_) to ∷ []

unfoldable pub model_changes : Pass → ℕ → ℕ → ClientEntry → Slot → List Message
model_changes p i uids c s =
    if upd_flg p uids c s && (not (is_empty c.modelname) || s.mine.model_set)
    then changemodel (pos i) c.modelname ∷ []
    else []

-- The messages of a pass for one id, and the slot after it.
unfoldable pub slot_changes : Pass → ℕ → ℕ → ClientEntry → Slot → List Message
slot_changes p i uids c s =
    list_changes p i uids c s
    ++ (gone_changes p i uids c s ++ (entity_changes p i uids c s ++ model_changes p i uids c s))

abbrev pub is_dirty : List Message → Bool
is_dirty [] = false
is_dirty (m ∷ ms) = true

unfoldable pub next_slot : Pass → ℕ → ℕ → ClientEntry → Slot → Slot
next_slot p i uids c s = record {
  was = some uids;
  mine =
      if is_dirty (slot_changes p i uids c s)
      then record c.state {
        visible = is_visible p c;
        model_set = if upd_flg p uids c s then not (is_empty c.modelname) else c.state.model_set;
      }
      else s.mine;
}
