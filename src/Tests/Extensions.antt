-- ===== src/Tests/Extensions.antt =====
-- A client with three extensions, and the numbers it is sent.
use mcchost.Base.{ℕ, ◌≡◌, ◌==◌, refl, Bool, not, true, false, none, some, List, [], ◌∷◌, arith}
use mcchost.Base.Int.{pos, ◌-ℤ◌}
use mcchost.Sessions.Slots.{is_same}
use mcchost.Packet.Config.{Config}
use mcchost.Packet.Encode.{nb_block_t}
use mcchost.Convert.{Limits, block_convert}
use mcchost.Convert.Bounds.{block_read}
use mcchost.Negotiate.Entries.{
  Flag, blockdefinitions, blockdefinitionsext, envmapaspect, extendblockno, Extension, Flags,
  set_flag, Negotiation, enable, is_asked, map_flags, wants_blockdefn, raised_limit, last_entry,
  with_pending, try_complete, after_loop, process_extentry, custblock, extinfo,
}
use mcchost.Negotiate.Definitions.{
  Definitions, first_defined, below_high, plain_limit, definitions_limit,
}
use mcchost.Negotiate.Sent.{
  Event, says_extinfo, says_extentry, says_custblock, happen, happen_all, IsConfigured,
  block_read-definitions_limit,
}
use mcchost.Negotiate.Enabled.{AreKept, process_extentry-AreKept}
use mcchost.Tests.Packets.{cpe_client}

abbrev extension : ℕ → ℕ → Flag → Bool → Extension
extension c version flag nolate = record {
  name = c ∷ [];
  version = pos version;
  enabled_flag = flag;
  enabled = false;
  disabled = false;
  nolate = nolate;
}

abbrev no_flags : Flags
no_flags = record {
  extn_customblocks = false;
  extn_extendblockno = false;
  extn_envmapappearance = false;
  extn_envmapappearance2 = false;
  extn_envmapaspect = false;
  extn_blockdefinitions = false;
  extn_blockdefinitionsext = false;
  extn_extplayerlist = false;
  extn_blockdefn = false;
}

-- BlockDefinitions, BlockDefinitionsExt, EnvMapAspect and ExtendedBlocks, with one letter each.
abbrev connected : Negotiation
connected = record {
  extensions =
      extension b'd' 1 blockdefinitions false
      ∷ extension b'e' 2 blockdefinitionsext false
      ∷ extension b'a' 1 envmapaspect false
      ∷ extension b'x' 1 extendblockno true
      ∷ [];
  flags = no_flags;
  cpe_pending = 1;
  cpe_extn_remaining = pos 0;
  customblock_pkt_sent = false;
  customblock_enabled = false;
  client_block_limit = 50;
  level_block_limit = 50;
  max_proto_player_id = 127;
  completed = false;
}

abbrev three_entries : List Event
three_entries =
    says_extinfo (pos 3)
    ∷ says_extentry (b'd' ∷ []) (pos 1)
    ∷ says_extentry (b'e' ∷ []) (pos 2)
    ∷ says_extentry (b'a' ∷ []) (pos 1)
    ∷ []

-- The connection is complete with the last of them.
abbrev defining : Negotiation
defining = record {
  extensions =
      record (extension b'd' 1 blockdefinitions false) { enabled = true }
      ∷ record (extension b'e' 2 blockdefinitionsext false) { enabled = true }
      ∷ record (extension b'a' 1 envmapaspect false) { enabled = true }
      ∷ extension b'x' 1 extendblockno true
      ∷ [];
  flags = record no_flags {
    extn_envmapaspect = true;
    extn_blockdefinitions = true;
    extn_blockdefinitionsext = true;
    extn_blockdefn = true;
  };
  cpe_pending = 0;
  cpe_extn_remaining = pos 0;
  customblock_pkt_sent = false;
  customblock_enabled = false;
  client_block_limit = 256;
  level_block_limit = 256;
  max_proto_player_id = 127;
  completed = true;
}

three_seen : happen_all three_entries connected ≡ some defining
unfolding happen_all happen extinfo process_extentry enable is_asked is_same set_flag after_loop
    try_complete with_pending last_entry map_flags wants_blockdefn raised_limit ◌-ℤ◌
three_seen = refl

-- ExtendedBlocks is too late then.
late_seen : happen_all (says_extentry (b'x' ∷ []) (pos 1) ∷ []) defining ≡ none
unfolding happen_all happen process_extentry enable is_asked is_same
late_seen = refl

-- With the answer to CustomBlocks alone the connection is complete, with all three entries to come.
early_seen :
    (elim (happen_all (says_extinfo (pos 3) ∷ says_custblock (pos 1) ∷ []) connected) [
      | none ↦ false
      | some n ↦ n.completed
    ])
    ≡ true
unfolding happen_all happen extinfo custblock with_pending
early_seen = refl

abbrev a_level : Definitions
a_level = record { is_defined = λ b. b == 70; has_high_texture = λ b. b == 70 }

abbrev limits_then : Limits
limits_then = record {
  level_block_limit = 50;
  client_block_limit = 256;
  classic_limit_blocks = false;
  customblock_enabled = false;
  extn_blockdefn = true;
  extn_extendtexno = false;
  tex16_def = λ b. b == 70;
  blockdef = λ b. record { defined = b == 70; fallback = 5 };
}

then_limits : (definitions_limit a_level false defining).level_block_limit ≡ 50
unfolding definitions_limit plain_limit first_defined below_high
then_limits = refl

abbrev narrow_client : Config
narrow_client = record cpe_client { extn_extendblockno = false }

configured : IsConfigured (definitions_limit a_level false defining) narrow_client limits_then
unfolding definitions_limit plain_limit first_defined below_high
configured = record { same_wide = refl; same_level = refl; same_client = refl }

block_read-definitions_limit_example :
    block_read narrow_client (nb_block_t narrow_client (block_convert limits_then 70))
    ≡ block_convert limits_then 70
block_read-definitions_limit_example =
    block_read-definitions_limit three_entries connected defining a_level false narrow_client
      limits_then 70 (omega arith) (omega arith) refl three_seen configured

abbrev first_then : Negotiation
first_then = record connected {
  extensions =
      record (extension b'd' 1 blockdefinitions false) { enabled = true }
      ∷ extension b'e' 2 blockdefinitionsext false
      ∷ extension b'a' 1 envmapaspect false
      ∷ extension b'x' 1 extendblockno true
      ∷ [];
  flags = record no_flags { extn_blockdefinitions = true };
  cpe_pending = 0;
  level_block_limit = 66;
  completed = true;
}

first_seen : process_extentry (b'd' ∷ []) (pos 1) connected ≡ some first_then
unfolding process_extentry enable is_asked is_same set_flag after_loop try_complete with_pending
    last_entry map_flags wants_blockdefn
first_seen = refl

process_extentry-AreKept_example :
    AreKept
      (b'd' ∷ [])
      (pos 1)
      (not (connected.cpe_pending == 0))
      connected.extensions
      first_then.extensions
process_extentry-AreKept_example =
    process_extentry-AreKept (b'd' ∷ []) (pos 1) connected first_then first_seen
