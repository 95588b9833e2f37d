-- ===== src/Packet/Send.antt =====
-- The `send_*_pkt` functions of send_packet.c. Each gives the bytes that it hands to
-- `write_to_remote`, or `none` where it returns before that. `text` is `nb_string_write` for the
-- connection, and `block_convert` the translation of block numbers of send_map_file.c.
use mcchost.Base.{
  ℕ, ◌-◌, Bool, not, ◌&&◌, ◌||◌, Option, none, some, [], ◌∷◌, ◌++◌, leb, ◌==◌, if◌then◌else◌, take,
  replicate, length, min,
}
use mcchost.Base.Int.{eq_ℤ, ℤ, pos, negsuc, ◌+ℤ◌, ◌-ℤ◌, ◌*ℤ◌, ltb_ℤ}
use mcchost.Packet.Config.{Config}
use mcchost.Packet.Encode.{Bytes, byte, nb_short, nb_int, nb_block_t, nb_entcoord}

-- `xyzhv_t`.
pub record Posn : Type 0 where
  pub x : ℤ
  pub y : ℤ
  pub z : ℤ
  pub h : ℤ
  pub v : ℤ
  pub valid : Bool

-- The player's own id is sent as it is, -1, and 255 stands for the user's slot.
unfoldable pub fix_player_id : Config → ℤ → Option ℤ
fix_player_id cfg id =
    if (ltb_ℤ id (pos 0) || ltb_ℤ (pos cfg.max_proto_player_id) id) && not (eq_ℤ id (negsuc 0))
    then none
    else if eq_ℤ id (pos 255)
    then some cfg.my_user_no
    else some id

-- An answer that needs a valid player.
abbrev with_player : Config → ℤ → (ℤ → Bytes) → Option Bytes
with_player cfg id body = elim (fix_player_id cfg id) [ none ↦ none | some i ↦ some (body i) ]

module _ (cfg : Config) (text : Bytes → Bytes) (block_convert : ℕ → ℕ) where
  -- A coordinate in a classic client's map, `scale` units to a block.
  unfoldable pub shifted : ℤ → ℤ → ℤ → ℤ
  shifted scale offset v = if cfg.cpe_requested then v else v +ℤ offset *ℤ scale

  unfoldable pub send_server_id_pkt : Bytes → Bytes → Bool → Option Bytes
  send_server_id_pkt servername servermotd user_type = some (
      0x00
      ∷ 7
      ∷ (text servername
          ++ (text servermotd
              ++ (if leb 6 cfg.protocol_base_version
                  then (if user_type then 100 else 0) ∷ []
                  else []))))

  unfoldable pub send_ping_pkt : Option Bytes
  send_ping_pkt = some (0x01 ∷ [])

  unfoldable pub send_lvlinit_pkt : ℤ → Option Bytes
  send_lvlinit_pkt level_length =
      some (0x02 ∷ (if cfg.extn_fastmap then nb_int level_length else []))

  -- The list is `block[0..len)`.
  unfoldable pub send_lvldata_pkt : Bytes → ℤ → Option Bytes
  send_lvldata_pkt block percent =
      let l = min (length block) 1024 in
      some (
        0x03
        ∷ (nb_short (pos l) ++ (take l block ++ (replicate (1024 - l) 0 ++ byte percent ∷ []))))

  unfoldable pub send_lvldone_pkt : ℤ → ℤ → ℤ → Option Bytes
  send_lvldone_pkt x y z = some (0x04 ∷ (nb_short x ++ (nb_short y ++ nb_short z)))

  unfoldable pub send_setblock_pkt : ℤ → ℤ → ℤ → ℕ → Option Bytes
  send_setblock_pkt x y z block = some (
      0x06
      ∷ (nb_short (shifted (pos 1) cfg.offset_x x)
          ++ (nb_short (shifted (pos 1) cfg.offset_y y)
              ++ (nb_short (shifted (pos 1) cfg.offset_z z)
                  ++ nb_block_t cfg (block_convert block)))))

  unfoldable pub send_spawn_pkt : ℤ → Bytes → Posn → Option Bytes
  send_spawn_pkt player_id playername posn = with_player cfg player_id λ id.
      0x07
      ∷ byte id
      ∷ (text playername
          ++ (nb_entcoord cfg (shifted (pos 32) cfg.offset_x posn.x)
              ++ (nb_entcoord cfg (shifted (pos 32) cfg.offset_y posn.y +ℤ pos 51)
                  ++ (nb_entcoord cfg (shifted (pos 32) cfg.offset_z posn.z)
                      ++ byte posn.h ∷ byte posn.v ∷ []))))

  -- Which of the four movement packets is enough: 0 the full one, 1 to 3 the shorter ones; `none` where
  -- nothing has moved. `old` is the last position sent, if there is one.
  unfoldable pub posn_kind : Option Posn → Posn → Option ℕ
  posn_kind none posn = some 0
  posn_kind (some old) posn =
      let far = λ (a b : ℤ). ltb_ℤ (pos 127) (a -ℤ b) || ltb_ℤ (a -ℤ b) (negsuc 126) in
      let turned = not (eq_ℤ old.h posn.h && eq_ℤ old.v posn.v) in
      if not old.valid
      then some 0
      else if eq_ℤ old.x posn.x && eq_ℤ old.y posn.y && eq_ℤ old.z posn.z
      then if turned then some 3 else none
      else if far old.x posn.x || far old.y posn.y || far old.z posn.z
      then some 0
      else if turned
      then some 1
      else some 2

  unfoldable pub full_posn : ℤ → Posn → Bytes
  full_posn id posn =
      0x08
      ∷ byte id
      ∷ (nb_entcoord cfg (shifted (pos 32) cfg.offset_x posn.x)
          ++ (nb_entcoord cfg (
                shifted (pos 32) cfg.offset_y posn.y
                +ℤ (if eq_ℤ id (negsuc 0) then pos 29 else pos 51))
              ++ (nb_entcoord cfg (shifted (pos 32) cfg.offset_z posn.z)
                  ++ byte posn.h ∷ byte posn.v ∷ [])))

  -- The bytes of the moves, old to new.
  unfoldable pub posn_delta : Posn → Posn → Bytes
  posn_delta old posn =
      byte (posn.x -ℤ old.x) ∷ byte (posn.y -ℤ old.y) ∷ byte (posn.z -ℤ old.z) ∷ []

  unfoldable pub posn_body : ℕ → ℤ → Posn → Posn → Bytes
  posn_body kind id old posn =
      if kind == 1
      then 0x09 ∷ byte id ∷ (posn_delta old posn ++ byte posn.h ∷ byte posn.v ∷ [])
      else if kind == 2
      then 0x0a ∷ byte id ∷ posn_delta old posn
      else if kind == 3
      then 0x0b ∷ byte id ∷ byte posn.h ∷ byte posn.v ∷ []
      else full_posn id posn

  unfoldable pub send_posn_pkt : ℤ → Option Posn → Posn → Option Bytes
  send_posn_pkt player_id oldpos posn = elim (fix_player_id cfg player_id) [
    | none ↦ none
    | some id ↦ elim (posn_kind oldpos posn) [
      | none ↦ none
      | some kind ↦
          let old : Posn = elim oldpos [ none ↦ posn | some o ↦ o ] in
          some (posn_body kind id old posn)
    ]
  ]

  unfoldable pub send_despawn_pkt : ℤ → Option Bytes
  send_despawn_pkt player_id = with_player cfg player_id λ id. 0x0c ∷ byte id ∷ []

  unfoldable pub send_message_pkt : ℤ → ℤ → Bytes → Option Bytes
  send_message_pkt player_id type message =
      let old_id =
        if ltb_ℤ (negsuc 1) player_id && ltb_ℤ player_id (pos 128) then byte player_id else 127 in
      if cfg.extn_messagetypes
      then some (0x0d ∷ byte type ∷ text message)
      else if not (eq_ℤ type (pos 0)) && not (eq_ℤ type (pos 100))
      then none
      else some (0x0d ∷ old_id ∷ text message)

  unfoldable pub send_discon_msg_pkt : Bytes → Option Bytes
  send_discon_msg_pkt message = some (0x0e ∷ text message)

  unfoldable pub send_op_pkt : Bool → Option Bytes
  send_op_pkt opflg = if cfg.op_enabled then some (0x0f ∷ (if opflg then 100 else 0) ∷ []) else none

  unfoldable pub send_extinfo_pkt : Bytes → ℤ → Option Bytes
  send_extinfo_pkt appname num_extn = some (0x10 ∷ (text appname ++ nb_short num_extn))

  unfoldable pub send_extentry_pkt : Bytes → ℤ → Option Bytes
  send_extentry_pkt extension version = some (0x11 ∷ (text extension ++ nb_int version))
