-- ===== src/Tests/Requests.antt =====
-- A packet of a client that is followed by other bytes in the buffer.
use mcchost.Base.{◌≡◌, refl, true, [], ◌∷◌, ◌++◌, length}
use mcchost.Base.Int.{pos}
use mcchost.Packet.Config.{extended_msglen, login_msglen, msglen}
use mcchost.Receive.Frame.{Bytes}
use mcchost.Request.Handle.{Link, process_client_message}
use mcchost.Request.Lengths.{process_client_message-append}
use mcchost.Tests.Packets.{cpe_client}

abbrev link : Link
link = record {
  cpe_requested = true;
  cpe_enabled = true;
  cpe_pending = 0;
  cpe_extn_remaining = pos 0;
  cpe_extn_advertised = pos 0;
  client_software = [];
  customblock_enabled = true;
  client_block_limit = 768;
  extn_extendblockno = cpe_client.extn_extendblockno;
  extn_heldblock = true;
  extn_extentityposn = cpe_client.extn_extentityposn;
  extn_longermessages = true;
  extn_fullcp437 = true;
  extn_pingpong = true;
  user_authenticated = true;
  has_level = true;
  offset_x = pos 0;
  offset_y = pos 0;
  offset_z = pos 0;
  void_x = pos 64;
  void_y = pos 64;
  void_z = pos 64;
  last_ping_id = 0;
}

abbrev set_dirt : Bytes
set_dirt = 5 ∷ 0 ∷ 10 ∷ 0 ∷ 20 ∷ 0 ∷ 30 ∷ 1 ∷ 0 ∷ 3 ∷ []

set_dirt-length : length set_dirt ≡ extended_msglen cpe_client (login_msglen cpe_client) 5
unfolding extended_msglen login_msglen msglen
set_dirt-length = refl

process_client_message-append_example :
    process_client_message link 5 (set_dirt ++ (5 ∷ 0 ∷ []))
    ≡ process_client_message link 5 set_dirt
process_client_message-append_example =
    process_client_message-append cpe_client link 5 set_dirt (5 ∷ 0 ∷ []) refl refl set_dirt-length
