-- ===== src/Packet/Lengths.antt =====
-- Every packet is as long as the client expects.
use mcchost.Base.{ℕ, Option, ◌≡◌, [], ◌∷◌, length}
use mcchost.Base.Int.{ℤ}
use mcchost.Packet.Config.{Config}
use mcchost.Packet.Encode.{Bytes, byte}
use mcchost.Packet.Text.{nb_string_write, length-nb_string_write}
use mcchost.Packet.Send.{
  send_ping_pkt, send_lvldata_pkt, send_lvldone_pkt, send_setblock_pkt, send_discon_msg_pkt,
  send_extinfo_pkt, send_extentry_pkt,
}
use mcchost.Packet.Define.{
  send_clickdistance_pkt, send_customblocks_pkt, send_holdthis_pkt, send_envsetcolour_pkt,
  send_textureurl_pkt, send_setmapproperty_pkt, send_weather_pkt, send_hackcontrol_pkt,
  send_removeblockdef_pkt, send_inventory_order_pkt, send_sethotbar_pkt, send_blockperm_pkt,
}
use mcchost.Packet.Players.{send_settextcolour_pkt, send_pingpong_pkt, send_setspawn_pkt}
use mcchost.Packet.SentLen.{HasLength, all_lengths}
use mcchost.Packet.BasicLengths.{
  server_id-HasLength, lvlinit-HasLength, lvldata_length, spawn-HasLength, posn-HasLength,
  despawn-HasLength, message-HasLength, op-HasLength,
}
use mcchost.Packet.CpeLengths.{
  mapappear-HasLength, defineblock-HasLength, addplayername-HasLength, removeplayername-HasLength,
  addentity-HasLength, changemodel-HasLength, rm_selection_cuboid-HasLength,
  selection_cuboid-HasLength,
}
use mcchost.Packet.Message.{Message, send}

module _ (cfg : Config) (text : Bytes → Bytes) (block_convert : ℕ → ℕ) (speed : ℤ → ℕ)
    (length-text : (s : Bytes) → length (text s) ≡ 64) where
  message_length : (m : Message) → HasLength cfg (send cfg text block_convert speed m)
  unfolding send send_ping_pkt send_lvldata_pkt send_lvldone_pkt send_setblock_pkt
      send_discon_msg_pkt send_extinfo_pkt send_extentry_pkt send_clickdistance_pkt
      send_customblocks_pkt send_holdthis_pkt send_envsetcolour_pkt send_textureurl_pkt
      send_setmapproperty_pkt send_weather_pkt send_hackcontrol_pkt send_removeblockdef_pkt
      send_inventory_order_pkt send_sethotbar_pkt send_blockperm_pkt send_settextcolour_pkt
      send_pingpong_pkt send_setspawn_pkt
  message_length (Message.server_id a b c) =
      server_id-HasLength cfg text block_convert length-text a b c
  message_length Message.ping = omega all_lengths
  message_length (Message.lvlinit a) = lvlinit-HasLength cfg text block_convert length-text a
  message_length (Message.lvldata a b) =
      omega (all_lengths, lvldata_length cfg text block_convert length-text a (byte b ∷ []))
  message_length (Message.spawn a b c) = spawn-HasLength cfg text block_convert length-text a b c
  message_length (Message.posn a b c) = posn-HasLength cfg text block_convert length-text a b c
  message_length (Message.despawn a) = despawn-HasLength cfg text block_convert length-text a
  message_length (Message.message a b c) =
      message-HasLength cfg text block_convert length-text a b c
  message_length (Message.op a) = op-HasLength cfg text block_convert length-text a
  message_length (Message.mapappear a b c d e f g) =
      mapappear-HasLength cfg text block_convert speed length-text a b c d e f g
  message_length (Message.defineblock a b) =
      defineblock-HasLength cfg text block_convert speed length-text a b
  message_length (Message.addplayername a b c d e) =
      addplayername-HasLength cfg text block_convert speed length-text a b c d e
  message_length (Message.removeplayername a) =
      removeplayername-HasLength cfg text block_convert speed length-text a
  message_length (Message.addentity a b c d) =
      addentity-HasLength cfg text block_convert speed length-text a b c d
  message_length (Message.changemodel a b) =
      changemodel-HasLength cfg text block_convert speed length-text a b
  message_length (Message.selection_cuboid a b) =
      selection_cuboid-HasLength cfg text block_convert speed length-text a b
  message_length (Message.rm_selection_cuboid a) =
      rm_selection_cuboid-HasLength cfg text block_convert speed length-text a
  message_length m = omega (all_lengths, length-text)

-- Every packet that a function of send_packet.c writes, on every branch and for every set of
-- extensions, has the length that `msglen` gives for its first byte, with what `process_extentry` and
-- login.c store there, but for three types whose entry is not the length sent: a position (0x08) has
-- 10 bytes, or 16 with ExtEntityPositions; a block permission (0x1c) has 4, or 5 with ExtendedBlocks;
-- and a map appearance (0x1e) has 69, two more with ExtendedBlocks and four more with
-- EnvMapAppearance 2. `block_convert` and `speed` are any conversions of block numbers and of block
-- speeds.
pub send-HasLength :
    (cfg : Config) (textcolour : ℕ → Option ℕ) (after : ℕ) (block_convert : ℕ → ℕ) (speed : ℤ → ℕ)
    (m : Message)
    → HasLength cfg (send cfg (nb_string_write cfg textcolour after) block_convert speed m)
send-HasLength cfg textcolour after block_convert speed =
    message_length cfg (nb_string_write cfg textcolour after) block_convert speed
      (length-nb_string_write cfg textcolour after)
