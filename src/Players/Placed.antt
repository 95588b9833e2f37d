-- ===== src/Players/Placed.antt =====
-- Where the client has the players after a pass.
use mcchost.Base.{
  ℕ, ◌≡◌, ◌≢◌, ◌∙◌, refl, sym, ap, subst, true, false, not, ◌||◌, some, List, [], Bool-cases, inl,
  inr, arith,
}
use mcchost.Packet.Config.{Config}
use mcchost.Chat.Colour.{Bytes}
use mcchost.Players.Slot.{
  ClientEntry, Slot, Pass, is_dirty, is_visible, hide_location, upd_flg, slot_changes, next_slot,
}
use mcchost.Players.View.{View, place_of, full_place}
use mcchost.Players.Heard.{put_at}
use mcchost.Players.Places.{moved-posn_kind}
use mcchost.Players.Mirror.{Looks, after, heard_parts, v2}
use mcchost.Players.Quiet.{quiet}
use mcchost.Players.Pass.{rows_then}
use mcchost.Players.PassLaws.{row_at, heard_pass, heard_row}

-- A figure is where the slot has it, if that is known.
abbrev pub IsPlaced : View → Slot → Type 0
IsPlaced v s = s.mine.visible ≡ true → s.mine.posn_.valid ≡ true → v.place ≡ place_of s.mine.posn_

-- The places do not depend on the looks.
abbrev any_looks : Looks
any_looks = record {
  figure_of = λ u k. record { figure_name = []; skin = []; model = [] };
  listing_of = λ u k a. ([], []);
}

not_hidden : (p : Pass) (c : ClientEntry) → p.classic_multimap ≡ false → hide_location p c ≡ false
unfolding hide_location
not_hidden p c single = rw single refl

module _ (cfg : Config) (text : Bytes → Bytes) (block_convert : ℕ → ℕ) where
  put_there :
      (p : Pass) (i uids : ℕ) (c : ClientEntry) (s : Slot) (v : View)
      → p.classic_multimap ≡ false
      → is_visible p c ≡ true
      → full_place cfg text block_convert c.state.posn_ ≡ place_of c.state.posn_
      → IsPlaced v s
      → put_at cfg text block_convert p i uids c s v ≡ place_of c.state.posn_
  put_there p i uids c s v single seen full placed =
      let here = not_hidden p c single in
      elim (Bool-cases (upd_flg p uids c s || not s.mine.visible)) [
        | inl fresh ↦ rw (seen, fresh, here) full
        | inr known ↦
            rw (seen, known, here)
              (moved-posn_kind cfg text block_convert s.mine.posn_ c.state.posn_ v.place full
                (placed (ground (arith, known))))
      ]

  module _ (p : Pass) (i uids : ℕ) (c : ClientEntry) (s : Slot) (v : View) where
    slot_place :
        p.classic_multimap ≡ false
        → is_visible p c ≡ true
        → full_place cfg text block_convert c.state.posn_ ≡ place_of c.state.posn_
        → IsPlaced v s
        → (after cfg text block_convert any_looks p i uids c s v).place ≡ place_of c.state.posn_
    slot_place single seen full placed =
        ap (λ (w : View). w.place) (heard_parts cfg text block_convert any_looks p i uids c s v)
        ∙ put_there p i uids c s (v2 cfg text block_convert any_looks p i uids c s v) single seen
            full placed

    slot-IsPlaced :
        p.classic_multimap ≡ false
        → (is_visible p c ≡ true
            → full_place cfg text block_convert c.state.posn_ ≡ place_of c.state.posn_)
        → IsPlaced v s
        → IsPlaced (after cfg text block_convert any_looks p i uids c s v) (next_slot p i uids c s)
    unfolding next_slot
    slot-IsPlaced single full placed = elim (Bool-cases (is_dirty (slot_changes p i uids c s))) [
      | inl dirty ↦ rw dirty (λ seen valid. slot_place single seen (full seen) placed)
      | inr clean ↦
          let q = quiet cfg text block_convert any_looks p i uids c s v clean in
          rw clean (λ seen valid. (let never : ⊥ = cc in elim never [ ]))
    ]

  -- A pass of `check_other_users`, with players only of this level: where the client showed a player
  -- at the place that its slot has, if it has one, it shows a visible player at its place in the
  -- table, if a packet can hold that place, and the slot is right again.
  pub check_rows-IsPlaced :
      (p : Pass) (me i uids : ℕ) (users : ℕ → ClientEntry) (s : Slot) (rows : List (ℕ × Slot))
      (v : View)
      → p.classic_multimap ≡ false
      → row_at i rows ≡ some (uids, s)
      → uids ≢ me
      → (is_visible p (users uids) ≡ true
          → full_place cfg text block_convert (users uids).state.posn_
            ≡ place_of (users uids).state.posn_)
      → IsPlaced v s
      → (let w = heard_pass cfg text block_convert p me users 0 i rows v in
          (is_visible p (users uids) ≡ true → w.place ≡ place_of (users uids).state.posn_)
          × ((t : Slot) × (row_at i (rows_then p me users 0 rows) ≡ some (uids, t)) × IsPlaced w t))
  check_rows-IsPlaced p me i uids users s rows v single e ne full placed =
      let row =
        heard_row cfg text block_convert p me users 0 i i uids s rows v (omega arith) e ne in
      (
        λ seen.
            ap (λ (w : View). w.place) row.0
            ∙ slot_place p i uids (users uids) s v single seen (full seen) placed,
        (
          next_slot p i uids (users uids) s,
          row.1,
          subst (λ (w : View). IsPlaced w (next_slot p i uids (users uids) s)) (sym row.0)
              (slot-IsPlaced p i uids (users uids) s v single full placed),
        ),
      )
