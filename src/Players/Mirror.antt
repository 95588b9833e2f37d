-- ===== src/Players/Mirror.antt =====
-- A pass of `check_other_users` and what the client then shows for an id.
use mcchost.Base.{
  ℕ, ◌≡◌, ◌∙◌, refl, sym, ap, Bool, true, false, not, ◌&&◌, ◌||◌, Option, none, some, [], ◌∷◌, ◌++◌,
  ◌==◌, if◌then◌else◌, Bool-cases, inl, inr, arith,
}
use mcchost.Packet.Config.{Config}
use mcchost.Chat.Colour.{Bytes}
use mcchost.Players.Slot.{
  ClientEntry, Slot, Pass, is_uid, is_empty, is_visible, list_name, entity_name, skin_name,
  list_changes, upd_flg, gone_changes, entity_changes, model_changes, slot_changes,
}
use mcchost.Players.View.{View, Figure}
use mcchost.Players.Heard.{
  heard, hear_all-append, list_flg, heard-list_changes, heard-gone_changes, heard-entity_changes,
  heard-model_changes, put_at, made, dressed,
}

-- The look of a user at a value of look_update_counter.
pub record Looks : Type 0 where
  pub figure_of : ℕ → ℕ → Figure
  pub listing_of : ℕ → ℕ → Bool → Bytes × Bytes

-- The look of a user now, with the skin and the model where the client's extensions carry them.
abbrev pub model_now : Config → (Bytes → Bytes) → ClientEntry → Bytes
model_now cfg text c = if cfg.extn_changemodel then text c.modelname else text []

abbrev pub figure_now : Config → (Bytes → Bytes) → Pass → ClientEntry → Figure
figure_now cfg text p c = record {
  figure_name = text (entity_name p c);
  skin = if cfg.extn_extplayerlist then text (skin_name c) else text [];
  model = model_now cfg text c;
}

-- `c` is user `uids`, with the look of its counter.
pub record HasLook (cfg : Config) (text : Bytes → Bytes) (looks : Looks) (p : Pass) (uids : ℕ)
    (c : ClientEntry) : Type 0 where
  pub figure_lem : figure_now cfg text p c ≡ looks.figure_of uids c.state.look_update_counter
  pub listing_lem :
      (text c.name, text (list_name c c.state.is_afk))
      ≡ looks.listing_of uids c.state.look_update_counter c.state.is_afk

-- The slot says what the client shows.
pub record Mirrors (looks : Looks) (p : Pass) (v : View) (s : Slot) : Type 0 where
  pub shown_figure :
      s.mine.visible ≡ true
      → (u : ℕ) × (s.was ≡ some u)
        × (v.figure ≡ some (looks.figure_of u s.mine.look_update_counter))
  pub no_figure : s.mine.visible ≡ false → v.figure ≡ none
  pub no_name : p.extn_extplayerlist ≡ true → s.mine.active ≡ false → v.listed ≡ none
  pub shown_name :
      p.extn_extplayerlist ≡ true
      → s.mine.active ≡ true
      → (u : ℕ) → s.was ≡ some u
      → v.listed ≡ some (looks.listing_of u s.mine.look_update_counter s.mine.is_afk)

-- The client shows the user as it is.
pub record Shows (looks : Looks) (p : Pass) (uids : ℕ) (c : ClientEntry) (v : View) : Type 0 where
  pub figure_is :
      v.figure
      ≡ (if is_visible p c then some (looks.figure_of uids c.state.look_update_counter) else none)
  pub listed_is :
      p.extn_extplayerlist ≡ true
      → v.listed ≡ (
          if c.state.active
          then some (looks.listing_of uids c.state.look_update_counter c.state.is_afk)
          else none)

pub if_yes {ℓ} : {A : Type ℓ} (b : Bool) (x y : A) → b ≡ true → (if b then x else y) ≡ x
if_yes b x y h = rw h refl

pub if_no {ℓ} : {A : Type ℓ} (b : Bool) (x y : A) → b ≡ false → (if b then x else y) ≡ y
if_no b x y h = rw h refl

emptied : (m : Bytes) → is_empty m ≡ true → m ≡ []
emptied [] h = refl
emptied (c ∷ m) h = cc

module _ (cfg : Config) (text : Bytes → Bytes) (block_convert : ℕ → ℕ) where
  module _ (looks : Looks) (p : Pass) (i uids : ℕ) (c : ClientEntry) (s : Slot) (v : View) where
    -- The list and the figure after all messages.
    abbrev pub listed_then : Option (Bytes × Bytes)
    listed_then =
        if not p.extn_extplayerlist
        then v.listed
        else if not c.state.active && s.mine.active
        then none
        else if list_flg cfg text block_convert uids c s
        then some (text c.name, text (list_name c c.state.is_afk))
        else v.listed

    abbrev pub v1 : View
    v1 = record v { listed = listed_then }

    abbrev pub v2 : View
    v2 = record v1 {
      figure =
          if upd_flg p uids c s || (not (is_visible p c) && s.mine.visible) then none else v.figure;
    }

    abbrev pub v3 : View
    v3 = record v2 {
      figure = made cfg text block_convert p i uids c s v2;
      place = put_at cfg text block_convert p i uids c s v2;
    }

    abbrev pub v4 : View
    v4 = record v3 { figure = dressed cfg text block_convert p i uids c s v3 }

    abbrev pub after : View
    after = heard cfg text block_convert i (slot_changes p i uids c s) v

    pub heard_parts : after ≡ v4
    unfolding slot_changes
    heard_parts =
        let hear_on = hear_all-append cfg text block_convert i in
        let later = heard cfg text block_convert i in
        let gone = gone_changes p i uids c s in
        let entity = entity_changes p i uids c s in
        let models = model_changes p i uids c s in
        hear_on (list_changes p i uids c s) (gone ++ (entity ++ models)) v
        ∙ ap (later (gone ++ (entity ++ models)))
            (heard-list_changes cfg text block_convert p i uids c s v)
        ∙ hear_on gone (entity ++ models) v1
        ∙ ap (later (entity ++ models)) (heard-gone_changes cfg text block_convert p i uids c s v1)
        ∙ hear_on entity models v2
        ∙ ap (later models) (heard-entity_changes cfg text block_convert p i uids c s v2)
        ∙ heard-model_changes cfg text block_convert p i uids c s v3

    -- An update that is not asked for leaves a player that was shown.
    upd_known :
        upd_flg p uids c s ≡ false
        → is_visible p c ≡ true
        → (s.mine.visible ≡ true)
          × (s.mine.look_update_counter ≡ c.state.look_update_counter)
          × ((u : ℕ) → s.was ≡ some u → u ≡ uids)
    unfolding upd_flg
    upd_known no_upd seen = (
      ground (arith, no_upd, seen),
      ground (arith, no_upd, seen),
      λ u e.
          let test : (elim s.was [ none ↦ false | some w ↦ not (w == uids) ]) ≡ not (u == uids) =
            ap (λ (o : Option ℕ). elim o [ none ↦ false | some w ↦ not (w == uids) ]) e in
          ground (arith, no_upd, test),
    )

    figure_shows :
        HasLook cfg text looks p uids c
        → Mirrors looks p v s
        → v4.figure ≡ (
            if is_visible p c
            then some (looks.figure_of uids c.state.look_update_counter)
            else none)
    figure_shows look mirror = elim (Bool-cases (is_visible p c)) [
      | inr hidden ↦ elim (Bool-cases (upd_flg p uids c s)) [
        | inl upd ↦ rw (hidden, upd) (ground arith)
        | inr same ↦ elim (Bool-cases s.mine.visible) [
          | inl was_seen ↦ rw (hidden, same, was_seen) refl
          | inr unseen ↦ rw (hidden, same, unseen) (mirror.no_figure unseen)
        ]
      ]
      | inl seen ↦ elim (Bool-cases (upd_flg p uids c s)) [
        | inl upd ↦ rw (seen, upd) (dressed_new look)
        | inr same ↦
            let known = upd_known same seen in
            rw (seen, same, known.0) (still (mirror.shown_figure known.0) known.1 known.2)
      ]
    ]
      where
        model_is :
            (m : Bytes)
            → HasLook cfg text looks p uids c
            → model_now cfg text c ≡ m
            → some (record (figure_now cfg text p c) { model = m })
              ≡ some (looks.figure_of uids c.state.look_update_counter)
        model_is m look e =
            ap (λ (x : Bytes). some (record (figure_now cfg text p c) { model = x })) (sym e)
            ∙ ap some look.figure_lem

        dressed_new :
            HasLook cfg text looks p uids c
            → (if not (is_empty c.modelname) || s.mine.model_set
                then if cfg.extn_changemodel
                  then some (record (figure_now cfg text p c) { model = text c.modelname })
                  else some (record (figure_now cfg text p c) { model = text [] })
                else some (record (figure_now cfg text p c) { model = text [] }))
              ≡ some (looks.figure_of uids c.state.look_update_counter)
        dressed_new look = elim (Bool-cases (not (is_empty c.modelname) || s.mine.model_set)) [
          | inl sent ↦ elim (Bool-cases cfg.extn_changemodel) [
            | inl with_model ↦
                rw (sent, if_yes cfg.extn_changemodel _ _ with_model)
                  (model_is (text c.modelname) look (if_yes cfg.extn_changemodel _ _ with_model))
            | inr no_model ↦
                rw (sent, if_no cfg.extn_changemodel _ _ no_model)
                  (model_is (text []) look (if_no cfg.extn_changemodel _ _ no_model))
          ]
          | inr none_sent ↦
              let blank : text c.modelname ≡ text [] =
                ap text (emptied c.modelname (ground (arith, none_sent))) in
              rw none_sent (model_is (text []) look (either cfg.extn_changemodel blank))
        ]
          where
            either :
                (b : Bool)
                → text c.modelname ≡ text []
                → (if b then text c.modelname else text []) ≡ text []
            either true e = e
            either false e = refl

        still :
            ((u : ℕ) × (s.was ≡ some u)
              × (v.figure ≡ some (looks.figure_of u s.mine.look_update_counter)))
            → s.mine.look_update_counter ≡ c.state.look_update_counter
            → ((u : ℕ) → s.was ≡ some u → u ≡ uids)
            → v.figure ≡ some (looks.figure_of uids c.state.look_update_counter)
        still (u, e, f) same_look same_user =
            f
            ∙ ap (λ (k : ℕ). some (looks.figure_of u k)) same_look
            ∙ ap (λ (w : ℕ). some (looks.figure_of w c.state.look_update_counter)) (same_user u e)

    -- A name that is not sent again is listed as it is.
    pub name_known :
        list_flg cfg text block_convert uids c s ≡ false
        → c.state.active ≡ true
        → (s.mine.active ≡ true)
          × (s.mine.look_update_counter ≡ c.state.look_update_counter)
          × (s.mine.is_afk ≡ c.state.is_afk)
          × (s.was ≡ some uids)
    unfolding is_uid
    name_known same on = (
      ground (arith, same, on),
      ground (arith, same, on),
      ground (arith, same, on),
      was_uid s.was (ground (arith, same, on)),
    )
      where
        was_uid : (o : Option ℕ) → is_uid o uids ≡ true → o ≡ some uids
        was_uid none h = cc
        was_uid (some u) h = ground (arith, h)

    name_shows :
        HasLook cfg text looks p uids c
        → Mirrors looks p v s
        → p.extn_extplayerlist ≡ true
        → v4.listed ≡ (
            if c.state.active
            then some (looks.listing_of uids c.state.look_update_counter c.state.is_afk)
            else none)
    unfolding list_name
    name_shows look mirror ext = elim (Bool-cases c.state.active) [
      | inr off ↦ elim (Bool-cases s.mine.active) [
        | inl listed ↦ rw (ext, off, listed) refl
        | inr unlisted ↦ rw (ext, off, unlisted) (mirror.no_name ext unlisted)
      ]
      | inl on ↦ elim (Bool-cases (list_flg cfg text block_convert uids c s)) [
        | inl sent ↦ rw (ext, sent, on) (ap some look.listing_lem)
        | inr same ↦
            let known = name_known same on in
            rw (ext, same, on)
              (mirror.shown_name ext known.0 uids known.3
                ∙ ap (λ (k : ℕ). some (looks.listing_of uids k s.mine.is_afk)) known.1
                ∙ ap (λ (a : Bool). some (looks.listing_of uids c.state.look_update_counter a))
                    known.2)
      ]
    ]

    pub slot_changes-Shows :
        HasLook cfg text looks p uids c → Mirrors looks p v s → Shows looks p uids c after
    slot_changes-Shows look mirror = record {
      figure_is = ap (λ (w : View). w.figure) heard_parts ∙ figure_shows look mirror;
      listed_is = λ ext. ap (λ (w : View). w.listed) heard_parts ∙ name_shows look mirror ext;
    }
