-- ===== src/ChatQueue/Parts.antt =====
-- A message is the same after it was cut into parts and put together again.
use mcchost.Base.{
  ℕ, zero, suc, ◌+◌, ◌≤◌, ◌<◌, ◌≡◌, ◌∙◌, refl, ap, Bool, true, false, List, [], ◌∷◌, ◌++◌,
  append_assoc, arith, ltb, leb, ◌==◌, if◌then◌else◌, length, length-take, length-drop, take, drop,
  take_all, take-append-drop, min, Bool-cases, inl, inr, ap₂, ltb→lt, ltb→le,
}
use mcchost.Ring.{Ring, put}
use mcchost.Ring.Loop.{put_all, handle_all}
use mcchost.ChatQueue.Post.{Bytes, ChatEntry, part, post_parts}
use mcchost.ChatQueue.Hear.{Listener, Inbox, post, join_part, take_in, hears, hear}

-- The entries of a message.
abbrev pub parts : ℕ → ChatEntry → Bytes → List ChatEntry
parts zero e msg = []
parts (suc n) e msg =
    let more = parts n e (drop 64 msg) in
    part e msg ∷ (if ltb 0 (length (drop 64 msg)) then more else [])

pub post_parts-put_all :
    (n : ℕ) (e : ChatEntry) (msg : Bytes) (q : Ring ChatEntry)
    → post_parts n e msg q ≡ put_all q (parts n e msg)
unfolding post_parts
post_parts-put_all zero e msg q = refl
post_parts-put_all (suc n) e msg q = elim (Bool-cases (ltb 0 (length (drop 64 msg)))) [
  | inl more ↦ rw more (post_parts-put_all n e (drop 64 msg) (put q (part e msg)))
  | inr last ↦ rw last refl
]

-- Memory is to be had.
abbrev pub plenty : ℕ → Bool
plenty n = true

text_of_part : (msg : Bytes) → take (min (length msg) 64) (take 64 msg) ≡ take 64 msg
text_of_part msg =
    take_all (min (length msg) 64) (take 64 msg) (omega (arith, length-take {0} 64 msg))

none_of_length : (xs : Bytes) → (length xs == 0) ≡ true → xs ≡ []
none_of_length [] h = refl
none_of_length (x ∷ xs) h = absurd (ground arith)

-- A part that is not the last one is kept.
take_in_more :
    (e : ChatEntry) (msg : Bytes) (i : Inbox)
    → 64 < length msg
    → (r : ℕ) × (take_in plenty (part e msg) i
        ≡ record { used = i.used ++ take 64 msg; room = r; posted = i.posted })
unfolding take_in join_part part
take_in_more e msg i h =
    let long : leb (length msg) 64 ≡ false = ground arith in
    rw (text_of_part msg, long)
      (elim (Bool-cases (leb i.room (length i.used + length (take 64 msg)))) [
        | inl full ↦ (length i.used + length (take 64 msg) + 64, rw full refl)
        | inr room ↦ (i.room, rw room refl)
      ])

-- The last part sends the message off.
take_in_last :
    (e : ChatEntry) (msg : Bytes) (i : Inbox)
    → length msg ≤ 64
    → (r : ℕ) × (take_in plenty (part e msg) i
        ≡ record { used = []; room = r; posted = i.posted ++ (e.message_type, i.used ++ msg) ∷ [] })
unfolding take_in join_part part post
take_in_last e msg i h =
    let short : leb (length msg) 64 ≡ true = ground arith in
    rw (text_of_part msg, take_all 64 msg h, short)
      (elim (Bool-cases (length i.used == 0)) [
        | inl empty ↦ (i.room, rw (empty, none_of_length i.used empty) refl)
        | inr some_used ↦
            rw some_used (elim (Bool-cases (leb i.room (length i.used + length msg))) [
              | inl full ↦ (length i.used + length msg + 64, rw full refl)
              | inr room ↦ (i.room, rw room refl)
            ])
      ])

module _ (l : Listener) where
  hear-part :
      (e : ChatEntry) (msg : Bytes) (i : Inbox)
      → hear plenty l i (part e msg) ≡ (if hears l e then take_in plenty (part e msg) i else i)
  unfolding hear hears part
  hear-part e msg i = refl

  heard-part :
      (e : ChatEntry) (msg : Bytes) (i : Inbox)
      → hears l e ≡ true
      → hear plenty l i (part e msg) ≡ take_in plenty (part e msg) i
  heard-part e msg i h = hear-part e msg i ∙ rw h refl

  unheard-part :
      (e : ChatEntry) (msg : Bytes) (i : Inbox)
      → hears l e ≡ false
      → hear plenty l i (part e msg) ≡ i
  unheard-part e msg i h = hear-part e msg i ∙ rw h refl

  -- The first part, and what comes after it.
  first_part :
      (n : ℕ) (e : ChatEntry) (msg : Bytes) (i j : Inbox) (b : Bool)
      → hear plenty l i (part e msg) ≡ j
      → ltb 0 (length (drop 64 msg)) ≡ b
      → handle_all (hear plenty l) i (parts (suc n) e msg)
        ≡ handle_all (hear plenty l) j (if b then parts n e (drop 64 msg) else [])
  first_part n e msg i j b h more =
      ap₂ (λ j' b'. handle_all (hear plenty l) j' (if b' then parts n e (drop 64 msg) else [])) h
        more

  -- All parts of a message that the player hears make one call of `post_chat`, behind what was in the
  -- buffer already.
  pub hear-parts :
      (n : ℕ) (e : ChatEntry) (msg : Bytes) (i : Inbox)
      → length msg < n
      → hears l e ≡ true
      → (r : ℕ) × (handle_all (hear plenty l) i (parts n e msg) ≡ record {
        used = [];
        room = r;
        posted = i.posted ++ (e.message_type, i.used ++ msg) ∷ [];
      })
  hear-parts zero e msg i h heard = absurd (omega arith)
  hear-parts (suc n) e msg i h heard = elim (Bool-cases (ltb 0 (length (drop 64 msg)))) [
    | inl more ↦
        let long : 64 < length msg = omega (ltb→lt _ _ more, length-drop {0} 64 msg, arith) in
        let (r, kept) = take_in_more e msg i long in
        let j : Inbox = record { used = i.used ++ take 64 msg; room = r; posted = i.posted } in
        let (r', same) =
          hear-parts n e (drop 64 msg) j (omega (arith, length-drop {0} 64 msg)) heard in
        let whole : (i.used ++ take 64 msg) ++ drop 64 msg ≡ i.used ++ msg =
          append_assoc i.used (take 64 msg) (drop 64 msg)
          ∙ ap (λ m. i.used ++ m) (take-append-drop 64 msg) in
        (
          r',
          first_part n e msg i j true (heard-part e msg i heard ∙ kept) more
              ∙ same
              ∙ ap
                  (λ m. record {
                    used = [];
                    room = r';
                    posted = i.posted ++ (e.message_type, m) ∷ [];
                  })
                  whole,
        )
    | inr last ↦
        let short : length msg ≤ 64 = omega (ltb→le _ _ last, length-drop {0} 64 msg, arith) in
        let (r, sent) = take_in_last e msg i short in
        (r, first_part n e msg i _ false (heard-part e msg i heard ∙ sent) last)
  ]

  pub hear-parts_not_heard :
      (n : ℕ) (e : ChatEntry) (msg : Bytes) (i : Inbox)
      → hears l e ≡ false
      → handle_all (hear plenty l) i (parts n e msg) ≡ i
  hear-parts_not_heard zero e msg i unheard = refl
  hear-parts_not_heard (suc n) e msg i unheard = elim (Bool-cases (ltb 0 (length (drop 64 msg)))) [
    | inl more ↦
        first_part n e msg i i true (unheard-part e msg i unheard) more
        ∙ hear-parts_not_heard n e (drop 64 msg) i unheard
    | inr last ↦ first_part n e msg i i false (unheard-part e msg i unheard) last
  ]
