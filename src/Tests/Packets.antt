-- ===== src/Tests/Packets.antt =====
-- Packets for a client without extensions, and for one with extended blocks and positions.
use mcchost.Base.{ℕ, true, false, Option, none, [], ◌∷◌}
use mcchost.Base.Int.{pos, negsuc}
use mcchost.Packet.Config.{Config}
use mcchost.Packet.Text.{nb_string_write}
use mcchost.Packet.Send.{Posn}
use mcchost.Packet.Message.{Message, send}
use mcchost.Packet.SentLen.{HasLength}
use mcchost.Packet.Lengths.{send-HasLength}

abbrev pub cpe_client : Config
cpe_client = record {
  cpe_requested = true;
  op_enabled = false;
  protocol_base_version = 7;
  max_proto_player_id = 127;
  my_user_no = pos 3;
  offset_x = pos 0;
  offset_y = pos 0;
  offset_z = pos 0;
  extn_alltext = false;
  extn_changemodel = true;
  extn_emotefix = true;
  extn_envmapappearance2 = true;
  extn_extendblockno = true;
  extn_extendtexno = false;
  extn_extentityposn = true;
  extn_extplayerlist = true;
  extn_fastmap = true;
  extn_fullcp437 = false;
  extn_messagetypes = true;
  extn_textcolours = false;
}

abbrev pub plain_colours : ℕ → Option ℕ
plain_colours c = none

abbrev spot : Posn
spot = record { x = pos 40; y = pos 70; z = negsuc 2; h = pos 1; v = pos 2; valid = true }

send-HasLength_example : HasLength cpe_client (
    send cpe_client
      (nb_string_write cpe_client plain_colours 0)
      (λ b. b)
      (λ v. 128)
      (Message.spawn (pos 3) (b'&' ∷ b'a' ∷ 200 ∷ []) spot))
send-HasLength_example =
    send-HasLength cpe_client plain_colours 0 (λ b. b) (λ v. 128)
      (Message.spawn (pos 3) (b'&' ∷ b'a' ∷ 200 ∷ []) spot)
