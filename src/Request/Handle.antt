-- ===== src/Request/Handle.antt =====
-- `process_client_message`: for each packet the calls that it makes, and the variables that it sets.
-- The calls of other parts of the server are listed in their order.
use mcchost.Base.{
  ℕ, ◌+◌, ◌*◌, ◌/◌, Bool, true, false, not, ◌&&◌, ◌||◌, List, [], ◌∷◌, ltb, ◌==◌, if◌then◌else◌,
  map,
}
use mcchost.Base.Int.{ℤ, pos, ◌+ℤ◌, ◌-ℤ◌, ◌*ℤ◌, ltb_ℤ, eq_ℤ}
use mcchost.Receive.Frame.{Bytes}
use mcchost.Receive.Text.{sanitise_nbstring}
use mcchost.Request.Read.{
  byte_at, char_at, uint_be16, int_be16, int_be32, field_at, SetBlock, PlayerPosn, PlayerClick,
}

-- The globals that the function reads or sets, with their names. `has_level` is `level_prop` being
-- set; the offsets and the void map's size are `classic_map_offset` and `void_map_size`.
pub record Link : Type 0 where
  pub cpe_requested : Bool
  pub cpe_enabled : Bool
  pub cpe_pending : ℕ
  pub cpe_extn_remaining : ℤ
  pub cpe_extn_advertised : ℤ
  pub client_software : Bytes
  pub customblock_enabled : Bool
  pub client_block_limit : ℕ
  pub extn_extendblockno : Bool
  pub extn_heldblock : Bool
  pub extn_extentityposn : Bool
  pub extn_longermessages : Bool
  pub extn_fullcp437 : Bool
  pub extn_pingpong : Bool
  pub user_authenticated : Bool
  pub has_level : Bool
  pub offset_x : ℤ
  pub offset_y : ℤ
  pub offset_z : ℤ
  pub void_x : ℤ
  pub void_y : ℤ
  pub void_z : ℤ
  pub last_ping_id : ℕ

-- `flush_if_full` is the end of the set-block case, which looks at the bytes that are queued then;
-- `ping_answered` is the update of the ping statistics. `clicked` is the packet that the click case
-- reads, and then does nothing with.
pub data Call : Type 0 where
  process_player_setblock : SetBlock → Call
  update_player_move_time flush_if_full : Call
  update_player_pos : PlayerPosn → Call
  teleport_to : ℤ → ℤ → ℤ → Call
  process_chat_message : ℕ → Bytes → Call
  process_extentry : Bytes → ℤ → Call
  complete_connection : Call
  backdate_last_ping : Call
  send_pingpong : ℕ → ℕ → Call
  ping_answered : Call
  plugin_message : ℕ → Bytes → Call
  clicked : PlayerClick → Call

pub data Answer : Type 0 where
  logged_out : Answer
  answered : Link → List Call → Answer

unfoldable pub read_setblock : Link → Bytes → SetBlock
unfolding uint_be16
read_setblock l pkt =
    let at = λ (i : ℕ) (o : ℤ).
      if l.cpe_requested then pos (uint_be16 pkt i) else pos (uint_be16 pkt i) -ℤ o in
    let held = if l.extn_extendblockno then uint_be16 pkt 8 else byte_at pkt 8 in
    record {
      x = at 1 l.offset_x;
      y = at 3 l.offset_y;
      z = at 5 l.offset_z;
      mode = char_at pkt 7;
      block = if eq_ℤ (char_at pkt 7) (pos 0) then 0 else held;
      heldblock = held;
    }

-- The bytes before the coordinates.
unfoldable pub posn_start : Link → ℕ
posn_start l = if l.extn_heldblock && l.extn_extendblockno then 3 else 2

unfoldable pub read_coord : Link → Bytes → ℕ → ℤ → ℤ
unfolding int_be16 int_be32
read_coord l pkt k o =
    let at = posn_start l + k * (if l.extn_extentityposn then 4 else 2) in
    if l.extn_extentityposn
    then int_be32 pkt at
    else if l.cpe_requested
    then int_be16 pkt at
    else int_be16 pkt at -ℤ o *ℤ pos 32

unfoldable pub read_posn : Link → Bytes → PlayerPosn
unfolding posn_start read_coord uint_be16
read_posn l pkt =
    let after = posn_start l + (if l.extn_extentityposn then 12 else 6) in
    record {
      player_id = if l.extn_heldblock then 255 else byte_at pkt 1;
      held_block =
          if l.extn_heldblock
          then if l.extn_extendblockno then uint_be16 pkt 1 else byte_at pkt 1
          else 65535;
      x = read_coord l pkt 0 l.offset_x;
      y = read_coord l pkt 1 l.offset_y -ℤ pos 51;
      z = read_coord l pkt 2 l.offset_z;
      h = char_at pkt after;
      v = char_at pkt (after + 1);
    }

-- The test whether a position lies outside the void map, and the way back into it.
unfoldable pub void_calls : Link → PlayerPosn → List Call
void_calls l p =
    let outside =
      ltb_ℤ p.x (pos 32)
      || not (ltb_ℤ p.x (l.void_x *ℤ pos 32 -ℤ pos 32))
      || ltb_ℤ p.y (pos 16)
      || not (ltb_ℤ p.y (l.void_y *ℤ pos 32 -ℤ pos 48))
      || ltb_ℤ p.z (pos 32)
      || not (ltb_ℤ p.z (l.void_z *ℤ pos 32 -ℤ pos 32)) in
    let sized = ltb_ℤ (pos 3) l.void_x && ltb_ℤ (pos 3) l.void_y && ltb_ℤ (pos 3) l.void_z in
    if not l.has_level && not l.cpe_requested && not l.extn_extentityposn && sized && outside
    then teleport_to (l.void_x *ℤ pos 16 +ℤ pos 16) (l.void_y *ℤ pos 16 +ℤ pos 51)
        (l.void_z *ℤ pos 16 +ℤ pos 16)
      ∷ []
    else []

-- A part of a longer message keeps its blanks.
unfoldable pub read_message : Link → Bytes → ℕ × Bytes
unfolding sanitise_nbstring
read_message l pkt =
    let type = if l.extn_longermessages then byte_at pkt 1 else 0 in
    let filled =
      map (λ c. if c == 0 then (if l.extn_fullcp437 then 0xFF else b' ') else c) (field_at pkt 2) in
    (type, if type == 1 then filled else sanitise_nbstring l.extn_fullcp437 (field_at pkt 2) false)

unfoldable pub handle_extinfo : Link → Bytes → Answer
unfolding int_be16 sanitise_nbstring
handle_extinfo l pkt =
    let count = int_be16 pkt 65 in
    let named = record l {
      client_software = sanitise_nbstring l.extn_fullcp437 (field_at pkt 1) true;
    } in
    if l.cpe_pending == 0
    then answered (record named { cpe_extn_remaining = pos 0 }) []
    else answered (record named { cpe_extn_remaining = count; cpe_extn_advertised = count })
        (if ltb_ℤ (pos 0) count then [] else process_extentry [] (pos 0) ∷ [])

-- `cpe_pending |= 2`, where it holds two bits.
unfoldable pub with_bit_1 : ℕ → ℕ
with_bit_1 n = if n / 2 == 0 then n + 2 else n

unfoldable pub handle_custblock : Link → Bytes → Answer
unfolding with_bit_1
handle_custblock l pkt =
    let supported = ltb_ℤ (pos 0) (char_at pkt 1) in
    let limit = if ltb l.client_block_limit 66 then 66 else l.client_block_limit in
    let pending = with_bit_1 l.cpe_pending in
    answered
      (record l {
        customblock_enabled = l.customblock_enabled || supported;
        client_block_limit = if supported then limit else l.client_block_limit;
        cpe_pending = pending;
      })
      (if pending == 3
        then complete_connection ∷ (if l.extn_pingpong then backdate_last_ping ∷ [] else [])
        else [])

unfoldable pub handle_pingpong : Link → Bytes → List Call
unfolding uint_be16
handle_pingpong l pkt =
    let id = uint_be16 pkt 2 in
    if not l.extn_pingpong
    then []
    else if byte_at pkt 1 == 0
    then send_pingpong 0 id ∷ []
    else if id == l.last_ping_id
    then ping_answered ∷ []
    else []

unfoldable pub message_calls : ℕ × Bytes → List Call
message_calls m = process_chat_message m.0 m.1 ∷ []

unfoldable pub extentry_calls : Link → Bytes → List Call
unfolding int_be32 sanitise_nbstring
extentry_calls l pkt =
    process_extentry (sanitise_nbstring l.extn_fullcp437 (field_at pkt 1) true) (int_be32 pkt 65)
    ∷ []

unfoldable pub plugin_calls : Link → Bytes → List Call
unfolding sanitise_nbstring
plugin_calls l pkt =
    plugin_message (byte_at pkt 1) (sanitise_nbstring l.extn_fullcp437 (field_at pkt 2) false) ∷ []

unfoldable pub read_click : Bytes → PlayerClick
unfolding int_be16
read_click pkt = record {
  button = byte_at pkt 1;
  action = byte_at pkt 2;
  h = int_be16 pkt 3;
  v = int_be16 pkt 5;
  entity = char_at pkt 7;
  block_x = int_be16 pkt 8;
  block_y = int_be16 pkt 10;
  block_z = int_be16 pkt 12;
  face = byte_at pkt 14;
}

unfoldable pub click_calls : Link → Bytes → List Call
unfolding read_click
click_calls l pkt = if l.user_authenticated then clicked (read_click pkt) ∷ [] else []

-- The switch. A packet that only the server sends, or the login packet again, does nothing.
unfoldable pub dispatch : Link → ℕ → Bytes → Answer
dispatch l cmd pkt =
    if cmd == 0x05
    then answered l (
        process_player_setblock (read_setblock l pkt)
        ∷ update_player_move_time
        ∷ flush_if_full
        ∷ [])
    else if cmd == 0x08
    then answered l (update_player_pos (read_posn l pkt) ∷ void_calls l (read_posn l pkt))
    else if cmd == 0x0d
    then answered l (message_calls (read_message l pkt))
    else if cmd == 0x10
    then handle_extinfo l pkt
    else if cmd == 0x11
    then answered l (extentry_calls l pkt)
    else if cmd == 0x13
    then handle_custblock l pkt
    else if cmd == 0x22
    then answered l (click_calls l pkt)
    else if cmd == 0x2b
    then answered l (handle_pingpong l pkt)
    else if cmd == 0x35
    then answered l (plugin_calls l pkt)
    else answered l []

unfoldable pub process_client_message : Link → ℕ → Bytes → Answer
process_client_message l cmd pkt =
    if not (l.cpe_pending == 0) && not (cmd == 0x10 || cmd == 0x11 || cmd == 0x13)
    then answered l []
    else if not l.cpe_enabled && ltb 0x0f cmd
    then logged_out
    else dispatch l cmd pkt
