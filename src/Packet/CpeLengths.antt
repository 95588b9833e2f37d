-- ===== src/Packet/CpeLengths.antt =====
-- The lengths of the packets of the extensions that branch.
use mcchost.Base.{
  ℕ, ◌+◌, ◌*◌, ◌/◌, ◌≡◌, Option, none, some, Option-cases, not, ◌||◌, [], ◌++◌, if◌then◌else◌, ◌==◌,
  inl, inr, arith, length,
}
use mcchost.Base.Int.{ℤ, pos, ltb_ℤ}
use mcchost.Packet.Config.{Config}
use mcchost.Packet.Encode.{
  Bytes, lengths, length_bytes, nb_short_dflt, length-nb_short_dflt, nb_texid, length-nb_texid,
  nb_block_t, length-nb_block_t,
}
use mcchost.Packet.Send.{Posn, fix_player_id, send_spawn_pkt}
use mcchost.Packet.Define.{BlockDef, sides, shape_bytes, send_mapappear_pkt, send_defineblock_pkt}
use mcchost.Packet.Players.{
  Cuboid, ext_entity, add_cuboid, list_id, cuboid_colour, send_addplayername_pkt,
  send_removeplayername_pkt, send_addentity_pkt, send_changemodel_pkt, send_rm_selection_cuboid_pkt,
  send_selection_cuboid_pkt,
}
use mcchost.Packet.SentLen.{
  HasLength, if-HasLength, all_lengths, sent_len_1d, sent_len_1e, sent_len_23, sent_len_25,
  sent_len_1b,
}
use mcchost.Packet.BasicLengths.{spawn-HasLength}

-- A packet of `n` bytes.
abbrev Sized : Option Bytes → ℕ → Type 0
Sized none n = ⊥
Sized (some bytes) n = length bytes ≡ n

module _ (cfg : Config) (text : Bytes → Bytes) (block_convert : ℕ → ℕ) (speed : ℤ → ℕ)
    (length-text : (s : Bytes) → length (text s) ≡ 64) where
  length-list_id : (id : ℤ) → length (list_id cfg text block_convert speed id) ≡ 2
  unfolding list_id
  length-list_id id = omega lengths

  length-cuboid_colour : (c : ℤ) → length (cuboid_colour cfg text block_convert speed c) ≡ 6
  unfolding cuboid_colour
  length-cuboid_colour c = omega lengths

  length-sides :
      (d : BlockDef)
      → length (sides cfg text block_convert speed d) ≡ (
          if d.shape == 0
          then if cfg.extn_extendtexno then 2 else 1
          else if cfg.extn_extendtexno
          then 8
          else 4)
  unfolding sides
  length-sides d =
      let t1 = nb_texid cfg d.texture1 in
      let t2 = nb_texid cfg d.texture2 in
      let t3 = nb_texid cfg d.texture3 in
      let t4 = nb_texid cfg d.texture4 in
      ground (
        arith,
        length_bytes t1 (t2 ++ (t3 ++ t4)),
        length_bytes t2 (t3 ++ t4),
        length_bytes t3 t4,
        length-nb_texid cfg d.texture1,
        length-nb_texid cfg d.texture2,
        length-nb_texid cfg d.texture3,
        length-nb_texid cfg d.texture4,
      )

  length-shape_bytes :
      (d : BlockDef)
      → length (shape_bytes cfg text block_convert speed d) ≡ (if d.shape == 0 then 1 else 6)
  unfolding shape_bytes
  length-shape_bytes d = ground arith

  pub mapappear-HasLength :
      (a : Bytes) (b c : ℕ) (d : ℤ) (e : ℕ) (f g : ℤ)
      → HasLength cfg (send_mapappear_pkt cfg text block_convert speed a b c d e f g)
  unfolding send_mapappear_pkt
  mapappear-HasLength a b c d e f g =
      let fog : Bytes =
        if cfg.extn_envmapappearance2
        then nb_short_dflt f (pos (e + 2)) ++ nb_short_dflt g (pos 0)
        else [] in
      ground (
        arith,
        sent_len_1e cfg,
        length_bytes (text a)
            (nb_block_t cfg b ++ (nb_block_t cfg c ++ (nb_short_dflt d (pos (e / 2)) ++ fog))),
        length_bytes (nb_block_t cfg b)
            (nb_block_t cfg c ++ (nb_short_dflt d (pos (e / 2)) ++ fog)),
        length_bytes (nb_block_t cfg c) (nb_short_dflt d (pos (e / 2)) ++ fog),
        length_bytes (nb_short_dflt d (pos (e / 2))) fog,
        length_bytes (nb_short_dflt f (pos (e + 2))) (nb_short_dflt g (pos 0)),
        length-nb_short_dflt d (pos (e / 2)),
        length-nb_short_dflt f (pos (e + 2)),
        length-nb_short_dflt g (pos 0),
        length-nb_block_t cfg b,
        length-nb_block_t cfg c,
        length-text a,
      )

  -- The fields of a block definition, around its sides and its shape.
  defineblock_length :
      (a : ℕ) (d : BlockDef)
      → Sized (send_defineblock_pkt cfg text block_convert speed a d) (
          75
          + length (nb_block_t cfg a)
          + 2 * length (nb_texid cfg d.texture0)
          + length (sides cfg text block_convert speed d)
          + length (shape_bytes cfg text block_convert speed d))
  unfolding send_defineblock_pkt
  defineblock_length a d = omega (lengths, length-text)

  pub defineblock-HasLength :
      (a : ℕ) (d : BlockDef) → HasLength cfg (send_defineblock_pkt cfg text block_convert speed a d)
  unfolding send_defineblock_pkt
  defineblock-HasLength a d = ground (
    arith,
    sent_len_23 cfg,
    sent_len_25 cfg,
    defineblock_length a d,
    length-sides d,
    length-shape_bytes d,
    length-nb_block_t cfg a,
    length-nb_texid cfg d.texture0,
  )

  pub addplayername-HasLength :
      (a : ℤ) (b c d : Bytes) (e : ℤ)
      → HasLength cfg (send_addplayername_pkt cfg text block_convert speed a b c d e)
  unfolding send_addplayername_pkt
  addplayername-HasLength a b c d e = elim (Option-cases (fix_player_id cfg a)) [
    | inl h ↦ rw (h, HasLength) tt
    | inr (i, h) ↦ rw (h, HasLength) (omega (all_lengths, length-list_id, length-text))
  ]

  pub removeplayername-HasLength :
      (a : ℤ) → HasLength cfg (send_removeplayername_pkt cfg text block_convert speed a)
  unfolding send_removeplayername_pkt
  removeplayername-HasLength a = elim (Option-cases (fix_player_id cfg a)) [
    | inl h ↦ rw (h, HasLength) tt
    | inr (i, h) ↦ rw (h, HasLength) (omega (all_lengths, length-list_id))
  ]

  ext_entity-HasLength :
      (a : ℤ) (b c : Bytes) (d : Posn)
      → HasLength cfg (ext_entity cfg text block_convert speed a b c d)
  unfolding ext_entity
  ext_entity-HasLength a b c d = elim (Option-cases (fix_player_id cfg a)) [
    | inl h ↦ rw (h, HasLength) tt
    | inr (i, h) ↦ rw (h, HasLength) (omega (all_lengths, length-text))
  ]

  pub addentity-HasLength :
      (a : ℤ) (b c : Bytes) (d : Posn)
      → HasLength cfg (send_addentity_pkt cfg text block_convert speed a b c d)
  unfolding send_addentity_pkt
  addentity-HasLength a b c d =
      if-HasLength cfg cfg.extn_extplayerlist (ext_entity cfg text block_convert speed a b c d)
        (send_spawn_pkt cfg text block_convert a b d) (ext_entity-HasLength a b c d)
        (spawn-HasLength cfg text block_convert length-text a b d)

  pub changemodel-HasLength :
      (a : ℤ) (b : Bytes) → HasLength cfg (send_changemodel_pkt cfg text block_convert speed a b)
  unfolding send_changemodel_pkt
  changemodel-HasLength a b = elim (Option-cases (fix_player_id cfg a)) [
    | inl h ↦ rw (h, HasLength) (ground arith)
    | inr (i, h) ↦ rw (h, HasLength) (ground (arith, sent_len_1d cfg, length-text b))
  ]

  pub rm_selection_cuboid-HasLength :
      (a : ℤ) → HasLength cfg (send_rm_selection_cuboid_pkt cfg text block_convert speed a)
  unfolding send_rm_selection_cuboid_pkt
  rm_selection_cuboid-HasLength a = ground (arith, sent_len_1b cfg)

  cuboid-HasLength :
      (a : ℤ) (c : Cuboid) → HasLength cfg (some (add_cuboid cfg text block_convert speed a c))
  unfolding add_cuboid
  cuboid-HasLength a c = omega (all_lengths, length-cuboid_colour, length-text)

  pub selection_cuboid-HasLength :
      (a : ℤ) (c : Option Cuboid)
      → HasLength cfg (send_selection_cuboid_pkt cfg text block_convert speed a c)
  unfolding send_selection_cuboid_pkt
  selection_cuboid-HasLength a none = tt
  selection_cuboid-HasLength a (some c) =
      if-HasLength cfg (ltb_ℤ a (pos 0) || ltb_ℤ (pos 127) a) none
        (if not c.defined || ltb_ℤ c.colour (pos 0)
          then send_rm_selection_cuboid_pkt cfg text block_convert speed a
          else some (add_cuboid cfg text block_convert speed a c))
        tt
        (if-HasLength cfg (not c.defined || ltb_ℤ c.colour (pos 0))
          (send_rm_selection_cuboid_pkt cfg text block_convert speed a)
          (some (add_cuboid cfg text block_convert speed a c)) (rm_selection_cuboid-HasLength a)
          (cuboid-HasLength a c))
