-- ===== src/Players/View.antt =====
-- The client that the messages of `check_other_users` reach: what it knows of one id, as it reads it in
-- the packets that send_packet.c writes for the connection's extensions. `text` is `nb_string_write`:
-- the field of 64 bytes that is written for a string.
use mcchost.Base.{ℕ, ◌-◌, Option, none, some, List, [], ◌∷◌, ◌==◌, if◌then◌else◌, ltb}
use mcchost.Base.Int.{ℤ, pos, negsuc, ◌+ℤ◌, ◌-ℤ◌, eq_ℤ, int32}
use mcchost.Packet.Config.{Config}
use mcchost.Packet.Send.{Posn, shifted, posn_kind}
use mcchost.Packet.Message.{
  Message, addplayername, removeplayername, spawn, despawn, addentity, posn, changemodel,
}
use mcchost.Packet.Encode.{byte, clamp_short}
use mcchost.Chat.Colour.{Bytes}

pub record Place : Type 0 where
  pub px : ℤ
  pub py : ℤ
  pub pz : ℤ
  pub ph : ℤ
  pub pv : ℤ

pub record Figure : Type 0 where
  -- Each of them the field of a packet; a blank model is that of a person.
  pub figure_name : Bytes
  pub skin : Bytes
  pub model : Bytes

pub record View : Type 0 where
  -- The fields of the name and the shown name in the player list.
  pub listed : Option (Bytes × Bytes)
  pub figure : Option Figure
  pub place : Place

abbrev pub place_of : Posn → Place
place_of p = record { px = p.x; py = p.y; pz = p.z; ph = p.h; pv = p.v }

-- A signed byte.
unfoldable pub signed8 : ℕ → ℤ
signed8 n = if ltb n 128 then pos n else negsuc (255 - n)

-- What is read where `nb_entcoord` wrote a coordinate.
unfoldable pub read_entcoord : Config → ℤ → ℤ
unfolding clamp_short int32
read_entcoord cfg v = if cfg.extn_extentityposn then int32 v else clamp_short v

-- What is read where a packet wrote the whole position of another player, whose height is sent with 51
-- added.
unfoldable pub read_place : Config → Posn → Place
unfolding read_entcoord signed8
read_place cfg p = record {
  px = read_entcoord cfg p.x;
  py = read_entcoord cfg (p.y +ℤ pos 51) -ℤ pos 51;
  pz = read_entcoord cfg p.z;
  ph = signed8 (byte p.h);
  pv = signed8 (byte p.v);
}

abbrev pub or_new : Option Posn → Posn → Posn
or_new none new = new
or_new (some old) new = old

module _ (cfg : Config) (text : Bytes → Bytes) (block_convert : ℕ → ℕ) where
  -- The place of the full movement packet and of a spawn, which move a classic client's map.
  unfoldable pub full_place : Posn → Place
  unfolding read_place shifted
  full_place p = read_place cfg (record p {
    x = shifted cfg text block_convert (pos 32) cfg.offset_x p.x;
    y = shifted cfg text block_convert (pos 32) cfg.offset_y p.y;
    z = shifted cfg text block_convert (pos 32) cfg.offset_z p.z;
  })

  -- The move that the packet of `posn_kind` tells: a difference, a turn, or a new place.
  unfoldable pub moved : Option ℕ → Posn → Posn → Place → Place
  unfolding full_place
  moved none old new at_ = at_
  moved (some kind) old new at_ =
      let step = λ (k a b : ℤ). k +ℤ signed8 (byte (b -ℤ a)) in
      let turn = λ (a : ℤ). signed8 (byte a) in
      if kind == 0
      then full_place new
      else if kind == 3
      then record at_ { ph = turn new.h; pv = turn new.v }
      else if kind == 1
      then record {
        px = step at_.px old.x new.x;
        py = step at_.py old.y new.y;
        pz = step at_.pz old.z new.z;
        ph = turn new.h;
        pv = turn new.v;
      }
      else record at_ {
        px = step at_.px old.x new.x;
        py = step at_.py old.y new.y;
        pz = step at_.pz old.z new.z;
      }

  -- What the packet makes known that is written for a call. Without ExtPlayerList an entity is a spawn,
  -- with no skin, and without ChangeModel no model is sent.
  unfoldable pub hear : ℕ → Message → View → View
  unfolding moved full_place read_place
  hear i (addplayername j n l g s) v =
      if eq_ℤ j (pos i) then record v { listed = some (text n, text l) } else v
  hear i (removeplayername j) v = if eq_ℤ j (pos i) then record v { listed = none } else v
  hear i (despawn j) v = if eq_ℤ j (pos i) then record v { figure = none } else v
  hear i (spawn j n p) v =
      if eq_ℤ j (pos i)
      then record v {
        figure = some (record { figure_name = text n; skin = text []; model = text [] });
        place = full_place p;
      }
      else v
  hear i (addentity j n s p) v =
      if eq_ℤ j (pos i)
      then record v {
        figure = some (record {
          figure_name = text n;
          skin = if cfg.extn_extplayerlist then text s else text [];
          model = text [];
        });
        place = if cfg.extn_extplayerlist then read_place cfg p else full_place p;
      }
      else v
  hear i (posn j old new) v =
      if eq_ℤ j (pos i)
      then record v {
        place = moved (posn_kind cfg text block_convert old new) (or_new old new) new v.place;
      }
      else v
  hear i (changemodel j m) v =
      if eq_ℤ j (pos i)
      then record v {
        figure =
            if cfg.extn_changemodel
            then elim v.figure [ none ↦ none | some f ↦ some (record f { model = text m }) ]
            else v.figure;
      }
      else v
  hear i m v = v

  unfoldable pub hear_all : ℕ → List Message → View → View
  unfolding hear
  hear_all i [] v = v
  hear_all i (m ∷ ms) v = hear_all i ms (hear i m v)
