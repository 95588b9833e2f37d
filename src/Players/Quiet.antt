-- ===== src/Players/Quiet.antt =====
-- The slots after a pass of `check_other_users`, also where it sends nothing.
use mcchost.Base.{
  ℕ, ◌≡◌, ◌∙◌, refl, sym, ap, Bool, true, false, not, ◌&&◌, ◌||◌, Option, some, List, [], ◌∷◌, ◌++◌,
  Bool-cases, inl, inr, arith,
}
use mcchost.Packet.Config.{Config}
use mcchost.Packet.Message.{Message}
use mcchost.Chat.Colour.{Bytes}
use mcchost.Players.Slot.{
  ClientEntry, Slot, Pass, is_dirty, is_visible, list_changes, upd_flg, gone_changes,
  entity_changes, slot_changes, next_slot,
}
use mcchost.Players.View.{View}
use mcchost.Players.Heard.{list_flg}
use mcchost.Players.Mirror.{
  Looks, HasLook, Mirrors, Shows, after, slot_changes-Shows, name_known, if_yes, if_no,
}

is_dirty-append :
    (xs ys : List Message)
    → is_dirty (xs ++ ys) ≡ false
    → (is_dirty xs ≡ false) × (is_dirty ys ≡ false)
is_dirty-append [] ys h = (refl, h)
is_dirty-append (x ∷ xs) ys h = (h, cc)

module _ (cfg : Config) (text : Bytes → Bytes) (block_convert : ℕ → ℕ) where
  module _ (looks : Looks) (p : Pass) (i uids : ℕ) (c : ClientEntry) (s : Slot) (v : View) where
    abbrev shown_now : View
    shown_now = after cfg text block_convert looks p i uids c s v

    -- A pass that sends nothing.
    pub record IsQuiet : Type 0 where
      pub hidden : is_visible p c ≡ false
      pub unseen : s.mine.visible ≡ false
      pub no_left : p.extn_extplayerlist ≡ true → (not c.state.active && s.mine.active) ≡ false
      pub no_sent : p.extn_extplayerlist ≡ true → list_flg cfg text block_convert uids c s ≡ false

    quiet_parts :
        is_dirty (slot_changes p i uids c s) ≡ false
        → (is_dirty (list_changes p i uids c s) ≡ false)
          × (is_dirty (gone_changes p i uids c s) ≡ false)
          × (is_dirty (entity_changes p i uids c s) ≡ false)
    unfolding slot_changes
    quiet_parts clean =
        let one = is_dirty-append (list_changes p i uids c s) _ clean in
        let two = is_dirty-append (gone_changes p i uids c s) _ one.1 in
        (one.0, two.0, (is_dirty-append (entity_changes p i uids c s) _ two.1).0)

    entity_clean : is_dirty (entity_changes p i uids c s) ≡ false → is_visible p c ≡ false
    unfolding entity_changes
    entity_clean clean = elim (Bool-cases (is_visible p c)) [
      | inr hidden ↦ hidden
      | inl seen ↦ elim (Bool-cases (upd_flg p uids c s || not s.mine.visible)) [
        | inl fresh ↦ let dirty : false ≡ true = sym (rw (seen, fresh) at clean) in cc
        | inr known ↦ let dirty : false ≡ true = sym (rw (seen, known) at clean) in cc
      ]
    ]

    gone_clean :
        is_dirty (gone_changes p i uids c s) ≡ false
        → (upd_flg p uids c s || (not (is_visible p c) && s.mine.visible)) ≡ false
    unfolding gone_changes
    gone_clean clean = ground (arith, clean)

    list_clean :
        is_dirty (list_changes p i uids c s) ≡ false
        → p.extn_extplayerlist ≡ true
        → ((not c.state.active && s.mine.active) ≡ false)
          × (list_flg cfg text block_convert uids c s ≡ false)
    unfolding list_changes
    list_clean clean ext = (ground (arith, clean, ext), ground (arith, clean, ext))

    pub quiet : is_dirty (slot_changes p i uids c s) ≡ false → IsQuiet
    quiet clean =
        let parts = quiet_parts clean in
        let hidden = entity_clean parts.2 in
        let no_gone = gone_clean parts.1 in
        record {
          hidden = hidden;
          unseen = ground (arith, no_gone, hidden);
          no_left = λ ext. (list_clean parts.0 ext).0;
          no_sent = λ ext. (list_clean parts.0 ext).1;
        }

    abbrev pub slot_then : Slot
    slot_then = next_slot p i uids c s

    as_uid : (u : ℕ) → ◌≡◌ {A = Option ℕ} (some uids) (some u) → uids ≡ u
    as_uid u e = cc

    dirty-Mirrors :
        is_dirty (slot_changes p i uids c s) ≡ true
        → Shows looks p uids c shown_now
        → Mirrors looks p shown_now slot_then
    unfolding next_slot
    dirty-Mirrors dirty shows = rw dirty (record {
      shown_figure = λ seen. (uids, refl, shows.figure_is ∙ if_yes _ _ _ seen);
      no_figure = λ hidden. shows.figure_is ∙ if_no _ _ _ hidden;
      no_name = λ ext off. shows.listed_is ext ∙ if_no _ _ _ off;
      shown_name = λ ext on u e.
          shows.listed_is ext
          ∙ if_yes _ _ _ on
          ∙ ap (λ (w : ℕ). some (looks.listing_of w c.state.look_update_counter c.state.is_afk))
              (as_uid u e);
    })

    quiet-Mirrors :
        is_dirty (slot_changes p i uids c s) ≡ false
        → Shows looks p uids c shown_now
        → Mirrors looks p shown_now slot_then
    unfolding next_slot
    quiet-Mirrors clean shows =
        let q = quiet clean in
        rw clean (record {
          shown_figure = λ seen. (let never : ⊥ = cc in elim never [ ]);
          no_figure = λ hidden. shows.figure_is ∙ if_no _ _ _ q.hidden;
          no_name = λ ext off.
              (let c_off : c.state.active ≡ false = ground (arith, q.no_sent ext, off) in
                shows.listed_is ext ∙ if_no _ _ _ c_off);
          shown_name = λ ext on u e.
              (let c_on : c.state.active ≡ true = ground (arith, q.no_left ext, on) in
                let known =
                  name_known cfg text block_convert looks p i uids c s v (q.no_sent ext) c_on in
                shows.listed_is ext
                ∙ if_yes _ _ _ c_on
                ∙ ap
                    (λ (w : ℕ).
                      some (looks.listing_of w c.state.look_update_counter c.state.is_afk))
                    (as_uid u e)
                ∙ ap (λ (k : ℕ). some (looks.listing_of u k c.state.is_afk)) (sym known.1)
                ∙ ap (λ (a : Bool). some (looks.listing_of u s.mine.look_update_counter a))
                    (sym known.2));
        })

    pub next_slot-Mirrors :
        HasLook cfg text looks p uids c → Mirrors looks p v s → Mirrors looks p shown_now slot_then
    next_slot-Mirrors look mirror =
        let shows = slot_changes-Shows cfg text block_convert looks p i uids c s v look mirror in
        elim (Bool-cases (is_dirty (slot_changes p i uids c s))) [
          | inl dirty ↦ dirty-Mirrors dirty shows
          | inr clean ↦ quiet-Mirrors clean shows
        ]
