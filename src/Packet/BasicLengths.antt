-- ===== src/Packet/BasicLengths.antt =====
-- The lengths of the packets of the original protocol that branch.
use mcchost.Base.{
  ℕ, ◌+◌, ◌-◌, ◌≡◌, Bool, true, false, Option, none, some, [], ◌∷◌, ◌++◌, ◌==◌, leb, if◌then◌else◌,
  Option-cases, inl, inr, arith, length, length-take, length-replicate, take, replicate, min,
}
use mcchost.Base.Int.{ℤ}
use mcchost.Packet.Config.{Config}
use mcchost.Packet.SentLen.{
  HasLength, all_lengths, sent_len_02, sent_len_0d, sent_len_0f, sent_len_00,
}
use mcchost.Packet.Encode.{Bytes, length_bytes, length-nb_int}
use mcchost.Packet.Send.{
  send_server_id_pkt, send_lvlinit_pkt, send_spawn_pkt, send_posn_pkt, send_despawn_pkt,
  send_message_pkt, send_op_pkt, Posn, fix_player_id, posn_kind, posn_body, full_posn, posn_delta,
}

if_some-HasLength :
    (cfg : Config) (b : Bool) (x y : Bytes)
    → HasLength cfg (some x)
    → HasLength cfg (some y)
    → HasLength cfg (some (if b then x else y))
if_some-HasLength cfg true x y h k = h
if_some-HasLength cfg false x y h k = k

module _ (cfg : Config) (text : Bytes → Bytes) (block_convert : ℕ → ℕ)
    (length-text : (s : Bytes) → length (text s) ≡ 64) where
  pub posn_body-HasLength :
      (kind : ℕ) (id : ℤ) (old posn : Posn)
      → HasLength cfg (some (posn_body cfg text block_convert kind id old posn))
  unfolding posn_body full_posn posn_delta
  posn_body-HasLength kind id old new = if_some-HasLength cfg (kind == 1) _ _ (omega all_lengths) (
      if_some-HasLength cfg (kind == 2) _ _ (omega all_lengths)
        (if_some-HasLength cfg (kind == 3) _ _ (omega all_lengths) (omega all_lengths)))

  pub lvldata_length :
      (block : Bytes) (rest : Bytes)
      → length (
          take (min (length block) 1024) block
          ++ (replicate (1024 - min (length block) 1024) 0 ++ rest))
        ≡ 1024 + length rest
  lvldata_length block rest =
      let l = min (length block) 1024 in
      omega (
        arith,
        length_bytes (take l block) (replicate (1024 - l) 0 ++ rest),
        length_bytes (replicate (1024 - l) 0) rest,
        length-take {0} l block,
        length-replicate {A = ℕ} (1024 - l) 0,
      )

  pub server_id-HasLength :
      (a b : Bytes) (c : Bool) → HasLength cfg (send_server_id_pkt cfg text block_convert a b c)
  unfolding send_server_id_pkt
  server_id-HasLength a b c =
      let flag : Bytes =
        if leb 6 cfg.protocol_base_version then (if c then 100 else 0) ∷ [] else [] in
      ground (
        arith,
        sent_len_00 cfg,
        length_bytes (text a) (text b ++ flag),
        length_bytes (text b) flag,
        length-text a,
        length-text b,
      )

  pub lvlinit-HasLength : (a : ℤ) → HasLength cfg (send_lvlinit_pkt cfg text block_convert a)
  unfolding send_lvlinit_pkt
  lvlinit-HasLength a = ground (arith, sent_len_02 cfg, length-nb_int a)

  pub kind-HasLength :
      (o : Option ℕ) (id : ℤ) (old new : Posn)
      → HasLength cfg
          (elim o [ none ↦ none | some k ↦ some (posn_body cfg text block_convert k id old new) ])
  kind-HasLength none id old new = tt
  kind-HasLength (some k) id old new = posn_body-HasLength k id old new

  pub posn-HasLength :
      (a : ℤ) (b : Option Posn) (c : Posn)
      → HasLength cfg (send_posn_pkt cfg text block_convert a b c)
  unfolding send_posn_pkt
  posn-HasLength a b c = elim (Option-cases (fix_player_id cfg a)) [
    | inl e ↦ rw (e, HasLength) tt
    | inr (i, e) ↦ rw (e, HasLength) (kind-HasLength (posn_kind cfg text block_convert b c) i _ c)
  ]

  pub message-HasLength :
      (a b : ℤ) (c : Bytes) → HasLength cfg (send_message_pkt cfg text block_convert a b c)
  unfolding send_message_pkt
  message-HasLength a b c = ground (arith, sent_len_0d cfg, length-text c)

  pub op-HasLength : (a : Bool) → HasLength cfg (send_op_pkt cfg text block_convert a)
  unfolding send_op_pkt
  op-HasLength a = ground (arith, sent_len_0f cfg)

  pub spawn-HasLength :
      (a : ℤ) (b : Bytes) (c : Posn) → HasLength cfg (send_spawn_pkt cfg text block_convert a b c)
  unfolding send_spawn_pkt
  spawn-HasLength a b c = elim (Option-cases (fix_player_id cfg a)) [
    | inl e ↦ rw (e, HasLength) tt
    | inr (i, e) ↦ rw (e, HasLength) (omega (all_lengths, length-text b))
  ]

  pub despawn-HasLength : (a : ℤ) → HasLength cfg (send_despawn_pkt cfg text block_convert a)
  unfolding send_despawn_pkt
  despawn-HasLength a = elim (Option-cases (fix_player_id cfg a)) [
    | inl e ↦ rw (e, HasLength) tt
    | inr (i, e) ↦ rw (e, HasLength) (omega all_lengths)
  ]
