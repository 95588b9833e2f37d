-- ===== src/Packet/Define.antt =====
-- The CPE packets of send_packet.c for blocks, levels and the look of the world.
use mcchost.Base.{
  ℕ, ◌+◌, ◌/◌, ◌%◌, Bool, ◌||◌, Option, some, [], ◌∷◌, ◌++◌, ◌==◌, if◌then◌else◌, shr, u8,
}
use mcchost.Base.Int.{ℤ, pos, negsuc, ltb_ℤ, pos_part}
use mcchost.Packet.Config.{Config}
use mcchost.Packet.Encode.{Bytes, byte, nb_short, nb_short_dflt, nb_int, nb_block_t, nb_texid}

-- The fields of `blockdef_t` that go into a packet. The six textures, four fog bytes and six
-- coordinates are fields of their own.
pub record BlockDef : Type 0 where
  pub name : Bytes
  pub collide : ℕ
  pub transmits_light : ℕ
  pub walksound : ℕ
  pub fullbright : ℕ
  pub shape : ℕ
  pub draw : ℕ
  pub speed : ℤ
  pub texture0 : ℕ
  pub texture1 : ℕ
  pub texture2 : ℕ
  pub texture3 : ℕ
  pub texture4 : ℕ
  pub texture5 : ℕ
  pub fog0 : ℕ
  pub fog1 : ℕ
  pub fog2 : ℕ
  pub fog3 : ℕ
  pub coord0 : ℤ
  pub coord1 : ℤ
  pub coord2 : ℤ
  pub coord3 : ℤ
  pub coord4 : ℤ
  pub coord5 : ℤ

-- `!!v`.
abbrev bool : ℕ → ℕ
bool v = if v == 0 then 0 else 1

-- `!(flags & 2 ^ k)`.
abbrev flag_off : ℕ → ℕ → ℕ
flag_off flags k = if shr flags k % 2 == 0 then 1 else 0

-- A colour's three parts, and what is sent for a number that is no colour.
unfoldable pub red_of : ℤ → ℕ
red_of c = u8 (shr (pos_part c) 16)

unfoldable pub green_of : ℤ → ℕ
green_of c = u8 (shr (pos_part c) 8)

unfoldable pub blue_of : ℤ → ℕ
blue_of c = u8 (pos_part c)

abbrev pub no_colour : ℤ → Bool
no_colour c = ltb_ℤ c (pos 0) || ltb_ℤ (pos 0xffffff) c

-- `speed` is the conversion of a block's speed to its byte, which the source does in floating point.
module _ (cfg : Config) (text : Bytes → Bytes) (block_convert : ℕ → ℕ) (speed : ℤ → ℕ) where
  unfoldable pub send_clickdistance_pkt : ℤ → Option Bytes
  send_clickdistance_pkt dist = some (0x12 ∷ nb_short dist)

  unfoldable pub send_customblocks_pkt : Option Bytes
  send_customblocks_pkt = some (0x13 ∷ 1 ∷ [])

  unfoldable pub send_holdthis_pkt : ℕ → ℕ → Option Bytes
  send_holdthis_pkt blk lock = some (0x14 ∷ (nb_block_t cfg (block_convert blk) ++ bool lock ∷ []))

  unfoldable pub send_envsetcolour_pkt : ℤ → ℤ → Option Bytes
  send_envsetcolour_pkt id rgb =
      let part = λ (v : ℕ). if no_colour rgb then negsuc 0 else pos v in
      some (
        0x19
        ∷ byte id
        ∷ (nb_short (part (red_of rgb))
            ++ (nb_short (part (green_of rgb)) ++ nb_short (part (blue_of rgb)))))

  unfoldable pub send_textureurl_pkt : Bytes → Option Bytes
  send_textureurl_pkt textureurl = some (0x28 ∷ text textureurl)

  unfoldable pub send_setmapproperty_pkt : ℤ → ℤ → Option Bytes
  send_setmapproperty_pkt prop_id prop_value = some (0x29 ∷ byte prop_id ∷ nb_int prop_value)

  -- `cells_y` is the height of the map, a positive number.
  unfoldable pub send_mapappear_pkt : Bytes → ℕ → ℕ → ℤ → ℕ → ℤ → ℤ → Option Bytes
  send_mapappear_pkt textureurl side_blk edge_blk side_level cells_y cloudheight maxfog = some (
      0x1e
      ∷ (text textureurl
          ++ (nb_block_t cfg side_blk
              ++ (nb_block_t cfg edge_blk
                  ++ (nb_short_dflt side_level (pos (cells_y / 2))
                      ++ (if cfg.extn_envmapappearance2
                          then nb_short_dflt cloudheight (pos (cells_y + 2))
                            ++ nb_short_dflt maxfog (pos 0)
                          else []))))))

  unfoldable pub send_weather_pkt : ℤ → Option Bytes
  send_weather_pkt weather_id = some (0x1f ∷ byte weather_id ∷ [])

  unfoldable pub send_hackcontrol_pkt : ℕ → ℤ → Option Bytes
  send_hackcontrol_pkt flags jump = some (
      0x20
      ∷ flag_off flags 0
      ∷ flag_off flags 1
      ∷ flag_off flags 2
      ∷ flag_off flags 3
      ∷ flag_off flags 4
      ∷ nb_short (if shr flags 5 % 2 == 0 then negsuc 0 else jump))

  unfoldable pub send_removeblockdef_pkt : ℕ → Option Bytes
  send_removeblockdef_pkt blkno = some (0x24 ∷ nb_block_t cfg blkno)

  -- A sprite goes out as the first kind of block definition, any other block as the second.
  unfoldable pub sides : BlockDef → Bytes
  sides def =
      if def.shape == 0
      then nb_texid cfg def.texture2
      else nb_texid cfg def.texture1
        ++ (nb_texid cfg def.texture2 ++ (nb_texid cfg def.texture3 ++ nb_texid cfg def.texture4))

  unfoldable pub shape_bytes : BlockDef → Bytes
  shape_bytes def =
      if def.shape == 0
      then u8 def.shape ∷ []
      else byte def.coord0
        ∷ byte def.coord1
        ∷ byte def.coord2
        ∷ byte def.coord3
        ∷ byte def.coord4
        ∷ byte def.coord5
        ∷ []

  unfoldable pub send_defineblock_pkt : ℕ → BlockDef → Option Bytes
  send_defineblock_pkt blkno def = some (
      (if def.shape == 0 then 0x23 else 0x25)
      ∷ (nb_block_t cfg blkno
          ++ (text def.name
              ++ u8 def.collide
                ∷ u8 (speed def.speed)
                ∷ (nb_texid cfg def.texture0
                    ++ (sides def
                        ++ (nb_texid cfg def.texture5
                            ++ bool def.transmits_light
                              ∷ u8 def.walksound
                              ∷ bool def.fullbright
                              ∷ (shape_bytes def
                                  ++ u8 def.draw
                                    ∷ u8 def.fog0
                                    ∷ u8 def.fog1
                                    ∷ u8 def.fog2
                                    ∷ u8 def.fog3
                                    ∷ [])))))))

  unfoldable pub send_inventory_order_pkt : ℕ → ℕ → Option Bytes
  send_inventory_order_pkt order block =
      some (0x2c ∷ (nb_block_t cfg block ++ nb_block_t cfg order))

  unfoldable pub send_sethotbar_pkt : ℤ → ℕ → Option Bytes
  send_sethotbar_pkt slot block =
      some (0x2d ∷ (nb_block_t cfg (block_convert block) ++ byte slot ∷ []))

  unfoldable pub send_blockperm_pkt : ℕ → ℤ → ℤ → Option Bytes
  send_blockperm_pkt block placeok delok =
      some (0x1c ∷ (nb_block_t cfg block ++ byte placeok ∷ byte delok ∷ []))
