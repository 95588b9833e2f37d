-- ===== src/Players/Heard.antt =====
-- What the client knows of an id after each part of a pass.
use mcchost.Base.{
  ℕ, ◌≡◌, refl, Bool, not, ◌&&◌, ◌||◌, Option, none, some, List, [], ◌∷◌, ◌++◌, ◌==◌, if◌then◌else◌,
  ==_refl, Bool-cases, inl, inr,
}
use mcchost.Base.Int.{eq_ℤ}
use mcchost.Packet.Config.{Config}
use mcchost.Packet.Send.{Posn, posn_kind}
use mcchost.Packet.Message.{Message}
use mcchost.Chat.Colour.{Bytes}
use mcchost.Players.Slot.{
  ClientEntry, Slot, Pass, is_uid, is_empty, hide, is_visible, hide_location, list_name,
  entity_name, skin_name, list_changes, upd_flg, gone_changes, entity_changes, model_changes,
}
use mcchost.Players.View.{View, Figure, Place, full_place, moved, or_new, hear, hear_all}

module _ (cfg : Config) (text : Bytes → Bytes) (block_convert : ℕ → ℕ) where
  abbrev pub heard : ℕ → List Message → View → View
  heard = hear_all cfg text block_convert

  pub hear_all-append :
      (i : ℕ) (xs ys : List Message) (v : View) → heard i (xs ++ ys) v ≡ heard i ys (heard i xs v)
  unfolding hear_all
  hear_all-append i [] ys v = refl
  hear_all-append i (x ∷ xs) ys v = hear_all-append i xs ys (hear cfg text block_convert i x v)

  -- The place that the client is told.
  abbrev pub told : Pass → ClientEntry → Posn
  told p c = if hide_location p c then hide else c.state.posn_

  -- The entry of the list is to be sent.
  abbrev pub list_flg : ℕ → ClientEntry → Slot → Bool
  list_flg uids c s =
      c.state.active
      && (not s.mine.active
          || not (s.mine.look_update_counter == c.state.look_update_counter)
          || not (eq_ℤ s.mine.on_level c.state.on_level)
          || (if s.mine.is_afk then not c.state.is_afk else c.state.is_afk)
          || not (is_uid s.was uids))

  module _ (p : Pass) (i uids : ℕ) (c : ClientEntry) (s : Slot) (v : View) where
    pub heard-list_changes : heard i (list_changes p i uids c s) v ≡ record v {
      listed =
          if not p.extn_extplayerlist
          then v.listed
          else if not c.state.active && s.mine.active
          then none
          else if list_flg uids c s
          then some (text c.name, text (list_name c c.state.is_afk))
          else v.listed;
    }
    unfolding list_changes hear_all hear
    heard-list_changes = elim (Bool-cases (not p.extn_extplayerlist)) [
      | inl off ↦ rw off refl
      | inr on ↦ elim (Bool-cases (not c.state.active && s.mine.active)) [
        | inl left ↦ rw (on, left, ==_refl i) refl
        | inr here ↦ elim (Bool-cases (list_flg uids c s)) [
          | inl sent ↦ rw (on, here, sent, ==_refl i) refl
          | inr same ↦ rw (on, here, same) refl
        ]
      ]
    ]

    pub heard-gone_changes : heard i (gone_changes p i uids c s) v ≡ record v {
      figure =
          if upd_flg p uids c s || (not (is_visible p c) && s.mine.visible) then none else v.figure;
    }
    unfolding gone_changes hear_all hear
    heard-gone_changes =
        elim (Bool-cases (upd_flg p uids c s || (not (is_visible p c) && s.mine.visible))) [
          | inl gone ↦ rw (gone, ==_refl i) refl
          | inr stays ↦ rw stays refl
        ]

    -- The figure that the messages of the pass make.
    abbrev pub made : Option Figure
    made =
        if not (is_visible p c)
        then v.figure
        else if upd_flg p uids c s || not s.mine.visible
        then some (record {
          figure_name = text (entity_name p c);
          skin = if cfg.extn_extplayerlist then text (skin_name c) else text [];
          model = text [];
        })
        else v.figure

    abbrev pub put_at : Place
    put_at =
        if not (is_visible p c)
        then v.place
        else if upd_flg p uids c s || not s.mine.visible
        then full_place cfg text block_convert (told p c)
        else (let old = if hide_location p c then none else some s.mine.posn_ in
            moved cfg text block_convert (posn_kind cfg text block_convert old (told p c))
              (or_new old (told p c)) (told p c) v.place)

    pub heard-entity_changes :
        heard i (entity_changes p i uids c s) v ≡ record v { figure = made; place = put_at }
    unfolding entity_changes hear_all hear posn_kind moved
    heard-entity_changes = elim (Bool-cases (is_visible p c)) [
      | inr not_seen ↦ rw not_seen refl
      | inl seen ↦ elim (Bool-cases (upd_flg p uids c s || not s.mine.visible)) [
        | inl fresh ↦ rw (seen, fresh, ==_refl i) refl
        | inr known ↦ rw (seen, known, ==_refl i) refl
      ]
    ]

    abbrev pub dressed : Option Figure
    dressed =
        if upd_flg p uids c s && (not (is_empty c.modelname) || s.mine.model_set)
        then if cfg.extn_changemodel
          then elim v.figure [ none ↦ none | some f ↦ some (record f { model = text c.modelname }) ]
          else v.figure
        else v.figure

    pub heard-model_changes : heard i (model_changes p i uids c s) v ≡ record v { figure = dressed }
    unfolding model_changes hear_all hear
    heard-model_changes =
        elim (Bool-cases (upd_flg p uids c s && (not (is_empty c.modelname) || s.mine.model_set))) [
          | inl sent ↦ rw (sent, ==_refl i) refl
          | inr same ↦ rw same refl
        ]
