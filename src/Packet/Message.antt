-- ===== src/Packet/Message.antt =====
-- All the packets that send_packet.c can write: a call of one of its functions, with its arguments.
use mcchost.Base.{ℕ, Bool, Option}
use mcchost.Base.Int.{ℤ}
use mcchost.Packet.Config.{Config}
use mcchost.Packet.Encode.{Bytes}
use mcchost.Packet.Send.{
  Posn, send_server_id_pkt, send_ping_pkt, send_lvlinit_pkt, send_lvldata_pkt, send_lvldone_pkt,
  send_setblock_pkt, send_spawn_pkt, send_posn_pkt, send_despawn_pkt, send_message_pkt,
  send_discon_msg_pkt, send_op_pkt, send_extinfo_pkt, send_extentry_pkt,
}
use mcchost.Packet.Define.{
  BlockDef, send_clickdistance_pkt, send_customblocks_pkt, send_holdthis_pkt, send_envsetcolour_pkt,
  send_textureurl_pkt, send_setmapproperty_pkt, send_mapappear_pkt, send_weather_pkt,
  send_hackcontrol_pkt, send_removeblockdef_pkt, send_defineblock_pkt, send_inventory_order_pkt,
  send_sethotbar_pkt, send_blockperm_pkt,
}
use mcchost.Packet.Players.{
  Cuboid, send_addplayername_pkt, send_removeplayername_pkt, send_addentity_pkt,
  send_changemodel_pkt, send_settextcolour_pkt, send_pingpong_pkt, send_setspawn_pkt,
  send_selection_cuboid_pkt, send_rm_selection_cuboid_pkt,
}

pub data Message : Type 0 where
  server_id : Bytes → Bytes → Bool → Message
  ping : Message
  lvlinit : ℤ → Message
  lvldata : Bytes → ℤ → Message
  lvldone : ℤ → ℤ → ℤ → Message
  setblock : ℤ → ℤ → ℤ → ℕ → Message
  spawn : ℤ → Bytes → Posn → Message
  posn : ℤ → Option Posn → Posn → Message
  despawn : ℤ → Message
  message : ℤ → ℤ → Bytes → Message
  discon_msg : Bytes → Message
  op : Bool → Message
  extinfo : Bytes → ℤ → Message
  extentry : Bytes → ℤ → Message
  clickdistance : ℤ → Message
  customblocks : Message
  holdthis : ℕ → ℕ → Message
  envsetcolour : ℤ → ℤ → Message
  textureurl : Bytes → Message
  setmapproperty : ℤ → ℤ → Message
  mapappear : Bytes → ℕ → ℕ → ℤ → ℕ → ℤ → ℤ → Message
  weather : ℤ → Message
  hackcontrol : ℕ → ℤ → Message
  removeblockdef : ℕ → Message
  defineblock : ℕ → BlockDef → Message
  inventory_order : ℕ → ℕ → Message
  sethotbar : ℤ → ℕ → Message
  blockperm : ℕ → ℤ → ℤ → Message
  addplayername : ℤ → Bytes → Bytes → Bytes → ℤ → Message
  removeplayername : ℤ → Message
  addentity : ℤ → Bytes → Bytes → Posn → Message
  changemodel : ℤ → Bytes → Message
  settextcolour : ℕ → ℤ → ℕ → Message
  pingpong : ℤ → ℤ → Message
  setspawn : Posn → Message
  selection_cuboid : ℤ → Option Cuboid → Message
  rm_selection_cuboid : ℤ → Message

module _ (cfg : Config) (text : Bytes → Bytes) (block_convert : ℕ → ℕ) (speed : ℤ → ℕ) where
  unfoldable pub send : Message → Option Bytes
  send (server_id a b c) = send_server_id_pkt cfg text block_convert a b c
  send ping = send_ping_pkt cfg text block_convert
  send (lvlinit a) = send_lvlinit_pkt cfg text block_convert a
  send (lvldata a b) = send_lvldata_pkt cfg text block_convert a b
  send (lvldone a b c) = send_lvldone_pkt cfg text block_convert a b c
  send (setblock a b c d) = send_setblock_pkt cfg text block_convert a b c d
  send (spawn a b c) = send_spawn_pkt cfg text block_convert a b c
  send (posn a b c) = send_posn_pkt cfg text block_convert a b c
  send (despawn a) = send_despawn_pkt cfg text block_convert a
  send (message a b c) = send_message_pkt cfg text block_convert a b c
  send (discon_msg a) = send_discon_msg_pkt cfg text block_convert a
  send (op a) = send_op_pkt cfg text block_convert a
  send (extinfo a b) = send_extinfo_pkt cfg text block_convert a b
  send (extentry a b) = send_extentry_pkt cfg text block_convert a b
  send (clickdistance a) = send_clickdistance_pkt cfg text block_convert speed a
  send customblocks = send_customblocks_pkt cfg text block_convert speed
  send (holdthis a b) = send_holdthis_pkt cfg text block_convert speed a b
  send (envsetcolour a b) = send_envsetcolour_pkt cfg text block_convert speed a b
  send (textureurl a) = send_textureurl_pkt cfg text block_convert speed a
  send (setmapproperty a b) = send_setmapproperty_pkt cfg text block_convert speed a b
  send (mapappear a b c d e f g) = send_mapappear_pkt cfg text block_convert speed a b c d e f g
  send (weather a) = send_weather_pkt cfg text block_convert speed a
  send (hackcontrol a b) = send_hackcontrol_pkt cfg text block_convert speed a b
  send (removeblockdef a) = send_removeblockdef_pkt cfg text block_convert speed a
  send (defineblock a b) = send_defineblock_pkt cfg text block_convert speed a b
  send (inventory_order a b) = send_inventory_order_pkt cfg text block_convert speed a b
  send (sethotbar a b) = send_sethotbar_pkt cfg text block_convert speed a b
  send (blockperm a b c) = send_blockperm_pkt cfg text block_convert speed a b c
  send (addplayername a b c d e) = send_addplayername_pkt cfg text block_convert speed a b c d e
  send (removeplayername a) = send_removeplayername_pkt cfg text block_convert speed a
  send (addentity a b c d) = send_addentity_pkt cfg text block_convert speed a b c d
  send (changemodel a b) = send_changemodel_pkt cfg text block_convert speed a b
  send (settextcolour a b c) = send_settextcolour_pkt cfg text block_convert speed a b c
  send (pingpong a b) = send_pingpong_pkt cfg text block_convert speed a b
  send (setspawn a) = send_setspawn_pkt cfg text block_convert speed a
  send (selection_cuboid a b) = send_selection_cuboid_pkt cfg text block_convert speed a b
  send (rm_selection_cuboid a) = send_rm_selection_cuboid_pkt cfg text block_convert speed a
