-- ===== src/Negotiate/Entries.antt =====
-- `process_extentry`: an extension that the client says it has. The guess of the client from the
-- order of its extensions, which is for the log, is left out, and the packet lengths that the flags
-- give are in Packet/Config.
use mcchost.Base.{
  ℕ, ◌+◌, Bool, true, false, not, ◌&&◌, ◌||◌, Option, none, some, List, [], ◌∷◌, ltb, ◌==◌,
  if◌then◌else◌,
}
use mcchost.Base.Int.{ℤ, pos, ◌-ℤ◌, ltb_ℤ, eq_ℤ}
use mcchost.Sessions.Slots.{Bytes, is_same}

-- The flags that the negotiation itself reads; `other_flag` is any of the rest.
pub data Flag : Type 0 where
  customblocks : Flag
  extendblockno : Flag
  envmapappearance : Flag
  envmapappearance2 : Flag
  envmapaspect : Flag
  blockdefinitions : Flag
  blockdefinitionsext : Flag
  extplayerlist : Flag
  other_flag : Flag
  no_flag : Flag

-- `ext_list_t`.
pub record Extension : Type 0 where
  pub name : Bytes
  pub version : ℤ
  pub enabled_flag : Flag
  pub enabled : Bool
  pub disabled : Bool
  pub nolate : Bool

pub record Flags : Type 0 where
  pub extn_customblocks : Bool
  pub extn_extendblockno : Bool
  pub extn_envmapappearance : Bool
  pub extn_envmapappearance2 : Bool
  pub extn_envmapaspect : Bool
  pub extn_blockdefinitions : Bool
  pub extn_blockdefinitionsext : Bool
  pub extn_extplayerlist : Bool
  pub extn_blockdefn : Bool

unfoldable pub set_flag : Flag → Flags → Flags
set_flag customblocks f = record f { extn_customblocks = true }
set_flag extendblockno f = record f { extn_extendblockno = true }
set_flag envmapappearance f = record f { extn_envmapappearance = true }
set_flag envmapappearance2 f = record f { extn_envmapappearance2 = true }
set_flag envmapaspect f = record f { extn_envmapaspect = true }
set_flag blockdefinitions f = record f { extn_blockdefinitions = true }
set_flag blockdefinitionsext f = record f { extn_blockdefinitionsext = true }
set_flag extplayerlist f = record f { extn_extplayerlist = true }
set_flag other_flag f = f
set_flag no_flag f = f

pub record Negotiation : Type 0 where
  pub extensions : List Extension
  pub flags : Flags
  pub cpe_pending : ℕ
  pub cpe_extn_remaining : ℤ
  pub customblock_pkt_sent : Bool
  pub customblock_enabled : Bool
  pub client_block_limit : ℕ
  pub level_block_limit : ℕ
  pub max_proto_player_id : ℕ
  -- complete_connection has been called.
  pub completed : Bool

-- How the loop over the extensions ends: at an extension that is enabled already, at one that comes
-- too late, or after the last one or one that is not advertised.
pub data Enabling : Type 0 where
  repeated : Enabling
  too_late : Enabling
  looked : List Extension → Flags → Enabling

abbrev pub behind : Extension → Enabling → Enabling
behind e repeated = repeated
behind e too_late = too_late
behind e (looked es f) = looked (e ∷ es) f

module _ (extname : Bytes) (version : ℤ) where
  unfoldable pub is_asked : Extension → Bool
  is_asked e = eq_ℤ e.version version && is_same e.name extname

  unfoldable pub enable : Bool → List Extension → Flags → Enabling
  enable pending [] f = looked [] f
  enable pending (e ∷ es) f =
      let skipped = behind e (enable pending es f) in
      let taken =
        behind (record e { enabled = true }) (enable pending es (set_flag e.enabled_flag f)) in
      if not (is_asked e)
      then skipped
      else if e.enabled
      then repeated
      else if e.nolate && not pending
      then too_late
      else if e.disabled
      then looked (e ∷ es) f
      else taken

-- `extn_envmapappearance` after the last entry.
unfoldable pub map_flags : Flags → Flags
map_flags f =
    let g =
      if f.extn_extendblockno
      then record f { extn_envmapappearance = false; extn_envmapappearance2 = false }
      else f in
    record g { extn_envmapappearance = g.extn_envmapappearance || g.extn_envmapappearance2 }

unfoldable pub wants_blockdefn : Flags → Bool
wants_blockdefn f =
    f.extn_blockdefinitions
    && f.extn_blockdefinitionsext
    && (f.extn_envmapaspect || f.extn_envmapappearance)

-- The limit for a client with block definitions.
unfoldable pub raised_limit : Flags → ℕ → ℕ
raised_limit f limit =
    let low = if ltb limit 256 then 256 else limit in
    if f.extn_extendblockno && ltb low 768 then 768 else low

unfoldable pub last_entry : Negotiation → Negotiation
last_entry n =
    let f = map_flags n.flags in
    let ids = if f.extn_extplayerlist then 255 else n.max_proto_player_id in
    if wants_blockdefn f
    then record n {
      flags = record f { extn_blockdefn = true };
      client_block_limit = raised_limit f n.client_block_limit;
      level_block_limit = raised_limit f n.client_block_limit;
      max_proto_player_id = ids;
    }
    else record n { flags = f; level_block_limit = 66; max_proto_player_id = ids }

-- `|= 1` and `|= 2` on a number below 4.
abbrev pub or_bits : ℕ → Bool → ℕ
or_bits pending two =
    let bit0 = if pending == 0 || pending == 2 then pending + 1 else pending in
    if two && ltb bit0 2 then bit0 + 2 else bit0

-- `complete_connection` is called with both bits set, and clears `cpe_pending`.
unfoldable pub with_pending : ℕ → Negotiation → Negotiation
with_pending pending n =
    if pending == 3
    then record n { cpe_pending = 0; completed = true }
    else record n { cpe_pending = pending }

unfoldable pub try_complete : Negotiation → Negotiation
try_complete n =
    if n.cpe_pending == 0 || ltb_ℤ (pos 0) n.cpe_extn_remaining
    then n
    else with_pending (or_bits n.cpe_pending (not n.flags.extn_customblocks)) n

unfoldable pub after_loop : Negotiation → Negotiation
after_loop n =
    let m =
      if not n.customblock_pkt_sent && n.flags.extn_customblocks
      then record n { customblock_pkt_sent = true }
      else n in
    try_complete (if eq_ℤ m.cpe_extn_remaining (pos 0) then last_entry m else m)

-- No result where the process ends.
unfoldable pub process_extentry : Bytes → ℤ → Negotiation → Option Negotiation
process_extentry extname version n =
    let counted =
      if ltb_ℤ (pos 0) n.cpe_extn_remaining
      then record n { cpe_extn_remaining = n.cpe_extn_remaining -ℤ pos 1 }
      else n in
    elim (enable extname version (not (n.cpe_pending == 0)) n.extensions n.flags) [
      | repeated ↦ some counted
      | too_late ↦ none
      | looked es f ↦ some (after_loop (record counted { extensions = es; flags = f }))
    ]

-- PKID_CUSTBLOCK of `process_client_message`.
unfoldable pub custblock : ℤ → Negotiation → Negotiation
custblock version n =
    let supported = ltb_ℤ (pos 0) version in
    with_pending (if ltb n.cpe_pending 2 then n.cpe_pending + 2 else n.cpe_pending) (record n {
      customblock_enabled = n.customblock_enabled || supported;
      client_block_limit =
          if supported && ltb n.client_block_limit 66 then 66 else n.client_block_limit;
    })

-- PKID_EXTINFO, with the number of extensions that the client has.
unfoldable pub extinfo : ℤ → Negotiation → Option Negotiation
extinfo count n =
    if n.cpe_pending == 0
    then some (record n { cpe_extn_remaining = pos 0 })
    else if ltb_ℤ (pos 0) count
    then some (record n { cpe_extn_remaining = count })
    else process_extentry [] (pos 0) (record n { cpe_extn_remaining = count })
