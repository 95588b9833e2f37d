-- ===== src/Players/Despawn.antt =====
-- The client after `despawn_all_players`.
use mcchost.Base.{
  ℕ, zero, suc, ◌+◌, ◌<◌, ◌≡◌, ◌∙◌, refl, sym, ap, subst, true, false, none, some, List, [], ◌∷◌,
  ◌==◌, ==_refl, Bool-cases, inl, inr, arith,
}
use mcchost.Packet.Config.{Config}
use mcchost.Chat.Colour.{Bytes}
use mcchost.Players.Slot.{Slot, Pass}
use mcchost.Players.View.{View, hear, hear_all}
use mcchost.Players.Heard.{heard, hear_all-append}
use mcchost.Players.Mirror.{Looks, Mirrors}
use mcchost.Players.Pass.{despawn_row, despawned, despawn_all_players, despawned_rows}
use mcchost.Players.PassLaws.{row_at, AreDeaf, deaf_append, deaf_nil, deaf_despawn, from_deaf}

module _ (cfg : Config) (text : Bytes → Bytes) (block_convert : ℕ → ℕ) where
  despawn_row_deaf :
      (i j : ℕ) (s : Slot) → (i == j) ≡ false → AreDeaf cfg text block_convert j (despawn_row i s)
  unfolding despawn_row
  despawn_row_deaf i j s h = elim (Bool-cases s.mine.visible) [
    | inl seen ↦ rw seen (deaf_despawn cfg text block_convert i j h)
    | inr hidden ↦ rw hidden (deaf_nil cfg text block_convert j)
  ]

  despawns_deaf :
      (i j : ℕ) (rows : List (ℕ × Slot))
      → j < i
      → AreDeaf cfg text block_convert j (despawn_all_players i rows)
  unfolding despawn_all_players
  despawns_deaf i j [] h = deaf_nil cfg text block_convert j
  despawns_deaf i j ((uids, s) ∷ rows) h =
      deaf_append cfg text block_convert j _ _ (despawn_row_deaf i j s (ground (arith, h)))
        (despawns_deaf (suc i) j rows (omega (arith, h)))

  despawn_row-Mirrors :
      (looks : Looks) (p : Pass) (j : ℕ) (s : Slot) (v : View)
      → Mirrors looks p v s
      → ((heard cfg text block_convert j (despawn_row j s) v).figure ≡ none)
        × Mirrors looks p (heard cfg text block_convert j (despawn_row j s) v) (despawned s)
  unfolding despawn_row despawned hear_all hear
  despawn_row-Mirrors looks p j s v mirror = elim (Bool-cases s.mine.visible) [
    | inl seen ↦
        rw (seen, ==_refl j) (refl, gone_Mirrors (record v { figure = none }) refl mirror.no_name)
    | inr hidden ↦
        rw hidden (mirror.no_figure hidden, gone_Mirrors v (mirror.no_figure hidden) mirror.no_name)
  ]
    where
      gone_Mirrors :
          (w : View)
          → w.figure ≡ none
          → (p.extn_extplayerlist ≡ true → s.mine.active ≡ false → w.listed ≡ none)
          → Mirrors looks p w (despawned s)
      gone_Mirrors w gone unlisted = record {
        shown_figure = λ seen. (let never : ⊥ = cc in elim never [ ]);
        no_figure = λ hidden. gone;
        no_name = unlisted;
        shown_name = λ ext on u e. (let never : ⊥ = cc in elim never [ ]);
      }

  heard_despawn :
      (i k j uids : ℕ) (s : Slot) (rows : List (ℕ × Slot)) (v : View)
      → j ≡ i + k
      → row_at k rows ≡ some (uids, s)
      → (heard cfg text block_convert j (despawn_all_players i rows) v
          ≡ heard cfg text block_convert j (despawn_row j s) v)
        × (row_at k (despawned_rows rows) ≡ some (uids, despawned s))
  unfolding despawn_all_players despawned_rows
  heard_despawn i k j uids s [] v q e = let never : ⊥ = cc in elim never [ ]
  heard_despawn i zero j uids s ((u, t) ∷ rows) v q e =
      let same : u ≡ uids = cc in
      let same_slot : t ≡ s = cc in
      let here : j ≡ i = omega (arith, q) in
      rw (same, same_slot, here)
        (
          hear_all-append cfg text block_convert i (despawn_row i s) _ v
              ∙ from_deaf cfg text block_convert i _ _ (despawns_deaf (suc i) i rows (omega arith)),
          refl,
        )
  heard_despawn i (suc k) j uids s ((u, t) ∷ rows) v q e =
      let on = heard_despawn (suc i) k j uids s rows v (omega (arith, q)) e in
      (
        hear_all-append cfg text block_convert j (despawn_row i t) _ v
            ∙ ap (heard cfg text block_convert j (despawn_all_players (suc i) rows)) (
                from_deaf cfg text block_convert j (despawn_row i t) v
                  (despawn_row_deaf i j t (ground (arith, q))))
            ∙ on.0,
        on.1,
      )

  -- `despawn_all_players` leaves no figure at the client, and slots that say so.
  pub despawn_all_players-Mirrors :
      (looks : Looks) (p : Pass) (i uids : ℕ) (s : Slot) (rows : List (ℕ × Slot)) (v : View)
      → row_at i rows ≡ some (uids, s)
      → Mirrors looks p v s
      → (let w = heard cfg text block_convert i (despawn_all_players 0 rows) v in
          (t : Slot) × (w.figure ≡ none)
          × (row_at i (despawned_rows rows) ≡ some (uids, t))
          × Mirrors looks p w t)
  despawn_all_players-Mirrors looks p i uids s rows v e mirror =
      let row = heard_despawn 0 i i uids s rows v (omega arith) e in
      let then_ = despawn_row-Mirrors looks p i s v mirror in
      (
        despawned s,
        ap (λ (w : View). w.figure) row.0 ∙ then_.0,
        row.1,
        subst (λ (w : View). Mirrors looks p w (despawned s)) (sym row.0) then_.1,
      )
