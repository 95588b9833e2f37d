-- ===== src/Players/Delivered.antt =====
-- The packets of a pass that the send functions write: `fix_player_id` leaves out ids above
-- max_proto_player_id, and sends the id 255 as that of the user's own slot; without ExtPlayerList an
-- entity is sent as a spawn, and without ChangeModel no model is sent.
use mcchost.Base.{
  ℕ, ◌<◌, ◌≤◌, ◌≡◌, ◌≢◌, ◌∙◌, refl, sym, ap, subst, Bool, true, false, Option, none, some, List, [],
  ◌∷◌, ◌++◌, arith, if◌then◌else◌, ◌⊎◌, inl, inr, Bool-cases, ◌&&◌, ◌||◌, not,
}
use mcchost.Base.Int.{ℤ, pos, negsuc, eq_ℤ, ltb_ℤ}
use mcchost.Packet.Config.{Config}
use mcchost.Packet.Send.{Posn, fix_player_id}
use mcchost.Packet.Message.{
  Message, addplayername, removeplayername, despawn, addentity, posn, changemodel, server_id, ping,
  lvlinit, lvldata, lvldone, setblock, spawn, message, discon_msg, op, extinfo, extentry,
  clickdistance, customblocks, holdthis, envsetcolour, textureurl, setmapproperty, mapappear,
  weather, hackcontrol, removeblockdef, defineblock, inventory_order, sethotbar, blockperm,
  settextcolour, pingpong, setspawn, selection_cuboid, rm_selection_cuboid,
}
use mcchost.Chat.Colour.{Bytes}
use mcchost.Players.Slot.{ClientEntry, Slot, Pass}
use mcchost.Players.View.{View, hear, hear_all}
use mcchost.Players.Heard.{heard, hear_all-append}
use mcchost.Players.Mirror.{Looks, HasLook, Mirrors, Shows}
use mcchost.Players.Pass.{check_rows, rows_then}
use mcchost.Players.PassLaws.{row_at, check_rows-Shows}

abbrev with_id : Option ℤ → (ℤ → Message) → List Message
with_id none k = []
with_id (some j) k = k j ∷ []

-- The packet that is written for a call, with its id, if there is one.
unfoldable pub delivered_one : Config → Message → List Message
delivered_one cfg (addplayername j n l g s) =
    with_id (fix_player_id cfg j) (λ i. addplayername i n l g s)
delivered_one cfg (removeplayername j) = with_id (fix_player_id cfg j) (λ i. removeplayername i)
delivered_one cfg (despawn j) = with_id (fix_player_id cfg j) (λ i. despawn i)
delivered_one cfg (spawn j n p) = with_id (fix_player_id cfg j) (λ i. spawn i n p)
delivered_one cfg (addentity j n s p) =
    with_id (fix_player_id cfg j)
      (λ i. if cfg.extn_extplayerlist then addentity i n s p else spawn i n p)
delivered_one cfg (posn j o p) = with_id (fix_player_id cfg j) (λ i. posn i o p)
delivered_one cfg (changemodel j m) =
    if cfg.extn_changemodel then with_id (fix_player_id cfg j) (λ i. changemodel i m) else []
delivered_one cfg m = m ∷ []

unfoldable pub delivered : Config → List Message → List Message
delivered cfg [] = []
delivered cfg (m ∷ ms) = delivered_one cfg m ++ delivered cfg ms

-- An id that is written as it is, and for no other.
pub record IsOwnId (cfg : Config) (i : ℕ) : Type 0 where
  pub low : i ≤ cfg.max_proto_player_id
  pub small : i < 255
  pub other : eq_ℤ cfg.my_user_no (pos i) ≡ false

fixed_none :
    (cfg : Config) (i : ℕ) (j : ℤ)
    → IsOwnId cfg i
    → fix_player_id cfg j ≡ none
    → eq_ℤ j (pos i) ≡ false
unfolding fix_player_id
fixed_none cfg i (pos j) own h = ground (arith, own.low, own.small, h)
fixed_none cfg i (negsuc j) own h = ground (arith, h)

own_or_same :
    (out top : Bool) (m j k : ℤ)
    → (if out then none else (if top then some m else some j)) ≡ some k
    → ((top ≡ true) × (k ≡ m)) ⊎ (k ≡ j)
own_or_same true top m j k h = let never : ⊥ = cc in elim never [ ]
own_or_same false true m j k h = inl (refl, cc)
own_or_same false false m j k h = inr cc

not_top : (i : ℕ) (j : ℤ) → i < 255 → eq_ℤ j (pos 255) ≡ true → eq_ℤ j (pos i) ≡ false
not_top i (pos j) small h = ground (arith, small, h)
not_top i (negsuc j) small h = ground (arith, h)

fixed_some :
    (cfg : Config) (i : ℕ) (j k : ℤ)
    → IsOwnId cfg i
    → fix_player_id cfg j ≡ some k
    → eq_ℤ k (pos i) ≡ eq_ℤ j (pos i)
unfolding fix_player_id
fixed_some cfg i j k own h =
    let out =
      (ltb_ℤ j (pos 0) || ltb_ℤ (pos cfg.max_proto_player_id) j) && not (eq_ℤ j (negsuc 0)) in
    elim (own_or_same out (eq_ℤ j (pos 255)) cfg.my_user_no j k h) [
      | inr same ↦ ap (λ (a : ℤ). eq_ℤ a (pos i)) same
      | inl (top, mine) ↦
          ap (λ (a : ℤ). eq_ℤ a (pos i)) mine ∙ own.other ∙ sym (not_top i j own.small top)
    ]

module _ (cfg : Config) (text : Bytes → Bytes) (block_convert : ℕ → ℕ) where
  module _ (i : ℕ) (own : IsOwnId cfg i) (v : View) where
    via :
        (o : Option ℤ) (j : ℤ) (k : ℤ → Message)
        → fix_player_id cfg j ≡ o
        → ((a : ℤ)
            → eq_ℤ a (pos i) ≡ eq_ℤ j (pos i)
            → hear cfg text block_convert i (k a) v ≡ hear cfg text block_convert i (k j) v)
        → (eq_ℤ j (pos i) ≡ false → hear cfg text block_convert i (k j) v ≡ v)
        → heard cfg text block_convert i (with_id o k) v ≡ hear cfg text block_convert i (k j) v
    unfolding hear_all
    via none j k h same skip = sym (skip (fixed_none cfg i j own h))
    via (some a) j k h same skip = same a (fixed_some cfg i j a own h)

    spawn_entity :
        (j : ℤ) (n s : Bytes) (p : Posn)
        → cfg.extn_extplayerlist ≡ false
        → hear cfg text block_convert i (spawn j n p) v
          ≡ hear cfg text block_convert i (addentity j n s p) v
    unfolding hear
    spawn_entity j n s p off = rw off refl

    no_model :
        (j : ℤ) (m : Bytes)
        → cfg.extn_changemodel ≡ false
        → hear cfg text block_convert i (changemodel j m) v ≡ v
    unfolding hear
    no_model j m off = elim (Bool-cases (eq_ℤ j (pos i))) [
      | inl here ↦ rw (here, off) refl
      | inr other ↦ rw other refl
    ]

    delivered_one-hear :
        (m : Message)
        → heard cfg text block_convert i (delivered_one cfg m) v ≡ hear cfg text block_convert i m v
    unfolding delivered_one hear hear_all
    delivered_one-hear (addplayername j n l g s) =
        via (fix_player_id cfg j) j (λ a. addplayername a n l g s) refl (λ a e. rw e refl)
          (λ e. rw e refl)
    delivered_one-hear (removeplayername j) =
        via (fix_player_id cfg j) j (λ a. removeplayername a) refl (λ a e. rw e refl)
          (λ e. rw e refl)
    delivered_one-hear (despawn j) =
        via (fix_player_id cfg j) j (λ a. despawn a) refl (λ a e. rw e refl) (λ e. rw e refl)
    delivered_one-hear (spawn j n p) =
        via (fix_player_id cfg j) j (λ a. spawn a n p) refl (λ a e. rw e refl) (λ e. rw e refl)
    delivered_one-hear (addentity j n s p) =
        let o = fix_player_id cfg j in
        let sent = λ (b : Bool).
          heard cfg text block_convert i
            (with_id o (λ a. if b then addentity a n s p else spawn a n p)) v in
        elim (Bool-cases cfg.extn_extplayerlist) [
          | inl on ↦
              ap sent on ∙ via o j (λ a. addentity a n s p) refl (λ a e. rw e refl) (λ e. rw e refl)
          | inr off ↦
              ap sent off
              ∙ via o j (λ a. spawn a n p) refl (λ a e. rw e refl) (λ e. rw e refl)
              ∙ spawn_entity j n s p off
        ]
    delivered_one-hear (posn j o p) =
        via (fix_player_id cfg j) j (λ a. posn a o p) refl (λ a e. rw e refl) (λ e. rw e refl)
    delivered_one-hear (changemodel j m) =
        let o = fix_player_id cfg j in
        let sent = λ (b : Bool).
          heard cfg text block_convert i (if b then with_id o (λ a. changemodel a m) else []) v in
        elim (Bool-cases cfg.extn_changemodel) [
          | inl on ↦
              ap sent on ∙ via o j (λ a. changemodel a m) refl (λ a e. rw e refl) (λ e. rw e refl)
          | inr off ↦ ap sent off ∙ sym (no_model j m off)
        ]
    delivered_one-hear (server_id a b c) = refl
    delivered_one-hear ping = refl
    delivered_one-hear (lvlinit a) = refl
    delivered_one-hear (lvldata a b) = refl
    delivered_one-hear (lvldone a b c) = refl
    delivered_one-hear (setblock a b c d) = refl
    delivered_one-hear (message a b c) = refl
    delivered_one-hear (discon_msg a) = refl
    delivered_one-hear (op a) = refl
    delivered_one-hear (extinfo a b) = refl
    delivered_one-hear (extentry a b) = refl
    delivered_one-hear (clickdistance a) = refl
    delivered_one-hear customblocks = refl
    delivered_one-hear (holdthis a b) = refl
    delivered_one-hear (envsetcolour a b) = refl
    delivered_one-hear (textureurl a) = refl
    delivered_one-hear (setmapproperty a b) = refl
    delivered_one-hear (mapappear a b c d e f g) = refl
    delivered_one-hear (weather a) = refl
    delivered_one-hear (hackcontrol a b) = refl
    delivered_one-hear (removeblockdef a) = refl
    delivered_one-hear (defineblock a b) = refl
    delivered_one-hear (inventory_order a b) = refl
    delivered_one-hear (sethotbar a b) = refl
    delivered_one-hear (blockperm a b c) = refl
    delivered_one-hear (settextcolour a b c) = refl
    delivered_one-hear (pingpong a b) = refl
    delivered_one-hear (setspawn a) = refl
    delivered_one-hear (selection_cuboid a b) = refl
    delivered_one-hear (rm_selection_cuboid a) = refl

  module _ (i : ℕ) (own : IsOwnId cfg i) where
    heard-delivered :
        (ms : List Message) (v : View)
        → heard cfg text block_convert i (delivered cfg ms) v ≡ heard cfg text block_convert i ms v
    unfolding delivered hear_all
    heard-delivered [] v = refl
    heard-delivered (m ∷ ms) v =
        hear_all-append cfg text block_convert i (delivered_one cfg m) (delivered cfg ms) v
        ∙ ap (heard cfg text block_convert i (delivered cfg ms)) (delivered_one-hear i own v m)
        ∙ heard-delivered ms (hear cfg text block_convert i m v)

    module _ (p : Pass) (me : ℕ) (users : ℕ → ClientEntry) (uids : ℕ) (s : Slot)
        (rows : List (ℕ × Slot)) (v : View) where
      -- What the client makes of the packets of a pass, for the id.
      abbrev pub delivered_pass : View
      delivered_pass =
          heard cfg text block_convert i (delivered cfg (check_rows p me users 0 rows)) v

      -- A pass of `check_other_users`: with the packets that are written, the client shows the user
      -- of a row that is not its own as the table has it, where the id of the row is below 255, at
      -- most max_proto_player_id and not that of the client's own slot. It shows a figure with the
      -- field of the user's name where it is visible and no figure else: with the field of its skin
      -- if the client has ExtPlayerList and with that of its model if it has ChangeModel, and with
      -- blank ones if not. With ExtPlayerList it shows the fields of its name in the list where it is
      -- active and no name else; the slot then says so again. The slot said before what the client
      -- showed, and the look of a user is what its look_update_counter stands for.
      pub check_rows-delivered :
          (looks : Looks)
          → row_at i rows ≡ some (uids, s)
          → uids ≢ me
          → HasLook cfg text looks p uids (users uids)
          → Mirrors looks p v s
          → Shows looks p uids (users uids) delivered_pass
            × ((t : Slot) × (row_at i (rows_then p me users 0 rows) ≡ some (uids, t))
                × Mirrors looks p delivered_pass t)
      check_rows-delivered looks e ne look mirror =
          let same = heard-delivered (check_rows p me users 0 rows) v in
          let all =
            check_rows-Shows cfg text block_convert p me users looks i uids s rows v e ne look
              mirror in
          (
            subst (Shows looks p uids (users uids)) (sym same) all.0,
            (all.1.0, all.1.1, subst (λ (w : View). Mirrors looks p w all.1.0) (sym same) all.1.2),
          )
