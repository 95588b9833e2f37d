-- ===== src/Packet/Players.antt =====
-- The CPE packets of send_packet.c for players, their entities and selections.
use mcchost.Base.{ℕ, Bool, not, ◌||◌, Option, none, some, [], ◌∷◌, ◌++◌, if◌then◌else◌, u8}
use mcchost.Base.Int.{eq_ℤ, ℤ, pos, negsuc, ◌+ℤ◌, ltb_ℤ}
use mcchost.Packet.Config.{Config}
use mcchost.Packet.Encode.{Bytes, byte, nb_short, nb_entcoord}
use mcchost.Packet.Send.{Posn, fix_player_id, send_spawn_pkt}
use mcchost.Packet.Define.{red_of, green_of, blue_of, no_colour}

-- `selection_cuboid_t`.
pub record Cuboid : Type 0 where
  pub defined : Bool
  pub name : Bytes
  pub start_x : ℕ
  pub start_y : ℕ
  pub start_z : ℕ
  pub end_x : ℕ
  pub end_y : ℕ
  pub end_z : ℕ
  pub colour : ℤ
  pub opacity : ℕ

module _ (cfg : Config) (text : Bytes → Bytes) (block_convert : ℕ → ℕ) (speed : ℤ → ℕ) where
  -- The id of a name in the player list.
  unfoldable pub list_id : ℤ → Bytes
  list_id id =
      nb_short
        (if eq_ℤ id (negsuc 0) then pos 255 else if ltb_ℤ id (pos 255) then id else id +ℤ pos 1)

  unfoldable pub send_addplayername_pkt : ℤ → Bytes → Bytes → Bytes → ℤ → Option Bytes
  send_addplayername_pkt player_id playername listname groupname sortid =
      elim (fix_player_id cfg player_id) [
        | none ↦ none
        | some id ↦ some (
            0x16
            ∷ (list_id id
                ++ (text playername ++ (text listname ++ (text groupname ++ byte sortid ∷ [])))))
      ]

  unfoldable pub send_removeplayername_pkt : ℤ → Option Bytes
  send_removeplayername_pkt player_id = elim (fix_player_id cfg player_id) [
    | none ↦ none
    | some id ↦ some (0x18 ∷ list_id id)
  ]

  -- The part for clients with ExtPlayerList.
  unfoldable pub ext_entity : ℤ → Bytes → Bytes → Posn → Option Bytes
  ext_entity player_id ingamename skinname posn = elim (fix_player_id cfg player_id) [
    | none ↦ none
    | some id ↦ some (
        0x21
        ∷ byte id
        ∷ (text ingamename
            ++ (text skinname
                ++ (nb_entcoord cfg posn.x
                    ++ (nb_entcoord cfg (posn.y +ℤ (if eq_ℤ id (negsuc 0) then pos 29 else pos 51))
                        ++ (nb_entcoord cfg posn.z ++ byte posn.h ∷ byte posn.v ∷ []))))))
  ]

  unfoldable pub send_addentity_pkt : ℤ → Bytes → Bytes → Posn → Option Bytes
  send_addentity_pkt player_id ingamename skinname posn =
      if cfg.extn_extplayerlist
      then ext_entity player_id ingamename skinname posn
      else send_spawn_pkt cfg text block_convert player_id ingamename posn

  unfoldable pub send_changemodel_pkt : ℤ → Bytes → Option Bytes
  send_changemodel_pkt player_id modelname =
      if cfg.extn_changemodel
      then elim (fix_player_id cfg player_id) [
        | none ↦ none
        | some id ↦ some (0x1d ∷ byte id ∷ text modelname)
      ]
      else none

  unfoldable pub send_settextcolour_pkt : ℕ → ℤ → ℕ → Option Bytes
  send_settextcolour_pkt code colour alpha =
      let c = if no_colour colour then pos 0xffffff else colour in
      some (
        0x27
        ∷ red_of c
        ∷ green_of c
        ∷ blue_of c
        ∷ (if no_colour colour then 0xff else u8 alpha)
        ∷ u8 code
        ∷ [])

  unfoldable pub send_pingpong_pkt : ℤ → ℤ → Option Bytes
  send_pingpong_pkt dir time = some (0x2b ∷ byte dir ∷ nb_short time)

  unfoldable pub send_setspawn_pkt : Posn → Option Bytes
  send_setspawn_pkt posn = some (
      0x2e
      ∷ (nb_entcoord cfg posn.x
          ++ (nb_entcoord cfg (posn.y +ℤ pos 51)
              ++ (nb_entcoord cfg posn.z ++ byte posn.h ∷ byte posn.v ∷ []))))

  unfoldable pub send_rm_selection_cuboid_pkt : ℤ → Option Bytes
  send_rm_selection_cuboid_pkt id =
      if ltb_ℤ id (pos 0) || ltb_ℤ (pos 127) id then none else some (0x1b ∷ byte id ∷ [])

  unfoldable pub cuboid_colour : ℤ → Bytes
  cuboid_colour c =
      let part = λ (v : ℕ). if no_colour c then pos 0 else pos v in
      nb_short (part (red_of c)) ++ (nb_short (part (green_of c)) ++ nb_short (part (blue_of c)))

  unfoldable pub add_cuboid : ℤ → Cuboid → Bytes
  add_cuboid id c =
      0x1a
      ∷ byte id
      ∷ (text c.name
          ++ (nb_short (pos c.start_x)
              ++ (nb_short (pos c.start_y)
                  ++ (nb_short (pos c.start_z)
                      ++ (nb_short (pos c.end_x)
                          ++ (nb_short (pos c.end_y)
                              ++ (nb_short (pos c.end_z)
                                  ++ (cuboid_colour c.colour ++ nb_short (pos c.opacity)))))))))

  -- `none` for the cuboid is a null pointer.
  unfoldable pub send_selection_cuboid_pkt : ℤ → Option Cuboid → Option Bytes
  send_selection_cuboid_pkt id none = none
  send_selection_cuboid_pkt id (some c) =
      if ltb_ℤ id (pos 0) || ltb_ℤ (pos 127) id
      then none
      else if not c.defined || ltb_ℤ c.colour (pos 0)
      then send_rm_selection_cuboid_pkt id
      else some (add_cuboid id c)
