-- ===== src/ChatQueue/Deliver.antt =====
-- From `queue_chat` in one process to `post_chat` in another.
use mcchost.Base.{
  ℕ, zero, suc, ◌+◌, ◌-◌, ◌/◌, ◌≤◌, ◌<◌, ◌≡◌, ◌∙◌, refl, sym, ap, false, List, [], ◌∷◌, ◌++◌,
  append-nil, append_assoc, arith, ltb, leb, ◌==◌, if◌then◌else◌, length, length-append,
  length-drop, drop, Bool-cases, inl, inr, ltb→lt, ltb→le,
}
use mcchost.Base.Int.{ℤ}
use mcchost.Ring.{Ring, Cursor, set_last}
use mcchost.Ring.Follow.{IsValid}
use mcchost.Ring.Loop.{
  put_all-IsValid, put_all-append, put_all, handle_all, handle_all-append, IsDone, read_loop-Live,
  put_all-Live, queue_len-put_all, set_last-Live,
}
use mcchost.ChatQueue.Post.{Bytes, ChatEntry, blank_chat, address, queue_chat}
use mcchost.ChatQueue.Hear.{Listener, Inbox, hears, hear, send_queued_chats}
use mcchost.ChatQueue.Parts.{parts, post_parts-put_all, plenty, hear-parts, hear-parts_not_heard}

-- A call of `queue_chat`: the caller's slot and cursor, and its arguments.
pub record Chat : Type 0 where
  pub from : ℤ
  pub cursor : Cursor
  pub to_where : ℕ
  pub to_id : ℤ
  pub chat_type : ℤ
  pub text : Bytes

abbrev addressed : Chat → ChatEntry
addressed ch = address ch.from ch.to_where ch.to_id ch.chat_type

-- Calls of `queue_chat` by whichever processes, one after the other.
unfoldable pub chat_all : List Chat → Ring ChatEntry → Ring ChatEntry
chat_all [] q = q
chat_all (ch ∷ chs) q =
    let (q', c) = queue_chat ch.from ch.to_where ch.to_id ch.chat_type ch.text q ch.cursor in
    chat_all chs q'

-- The messages that a player hears, whole.
unfoldable pub heard_by : Listener → List Chat → List (ℤ × Bytes)
heard_by l [] = []
heard_by l (ch ∷ chs) =
    let rest = heard_by l chs in
    if hears l (address ch.from ch.to_where ch.to_id ch.chat_type)
    then (ch.chat_type, ch.text) ∷ rest
    else rest

-- The entries that a text takes: one for each 64 bytes, and one for an empty text.
abbrev pub places : ℕ → ℕ
places len = if len == 0 then 1 else (len + 63) / 64

abbrev pub all_places : List Chat → ℕ
all_places [] = 0
all_places (ch ∷ chs) = places (length ch.text) + all_places chs

places_more : (a : ℕ) → 64 < a → suc (places (a - 64)) ≡ places a
places_more a h = ground arith

places_last : (a : ℕ) → a ≤ 64 → 1 ≡ places a
places_last a h = ground arith

length-parts :
    (n : ℕ) (e : ChatEntry) (msg : Bytes)
    → length msg < n
    → length (parts n e msg) ≡ places (length msg)
length-parts zero e msg h = absurd (omega arith)
length-parts (suc n) e msg h = elim (Bool-cases (ltb 0 (length (drop 64 msg)))) [
  | inl more ↦
      let long : 64 < length msg = omega (ltb→lt _ _ more, length-drop {0} 64 msg, arith) in
      let rest = length-parts n e (drop 64 msg) (omega (arith, length-drop {0} 64 msg)) in
      rw more (ap suc (rest ∙ ap places (length-drop 64 msg)) ∙ places_more (length msg) long)
  | inr last ↦
      rw last (places_last (length msg) (omega (ltb→le _ _ last, length-drop {0} 64 msg, arith)))
]

abbrev entries : Chat → List ChatEntry
entries ch = parts (suc (length ch.text)) (addressed ch) ch.text

abbrev all_entries : List Chat → List ChatEntry
all_entries [] = []
all_entries (ch ∷ chs) = entries ch ++ all_entries chs

queue_chat-put_all :
    (ch : Chat) (q : Ring ChatEntry)
    → IsValid q
    → queue_chat ch.from ch.to_where ch.to_id ch.chat_type ch.text q ch.cursor
      ≡ (put_all q (entries ch), ch.cursor)
unfolding queue_chat
queue_chat-put_all ch q v =
    let room : leb q.queue_len q.curr_offset ≡ false = ground arith in
    rw room (
      ap (λ r. (r, ch.cursor)) (post_parts-put_all (suc (length ch.text)) (addressed ch) ch.text q))

chat_all-put_all :
    (chs : List Chat) (q : Ring ChatEntry)
    → IsValid q
    → chat_all chs q ≡ put_all q (all_entries chs)
unfolding chat_all
chat_all-put_all [] q v = refl
chat_all-put_all (ch ∷ chs) q v = rw (queue_chat-put_all ch q v) (
    chat_all-put_all chs (put_all q (entries ch)) (put_all-IsValid (entries ch) q v)
    ∙ sym (put_all-append (entries ch) (all_entries chs) q))

length-all_entries : (chs : List Chat) → length (all_entries chs) ≡ all_places chs
length-all_entries [] = refl
length-all_entries (ch ∷ chs) =
    length-append (entries ch) (all_entries chs)
    ∙ omega (
      arith,
      length-parts (suc (length ch.text)) (addressed ch) ch.text (omega arith),
      length-all_entries chs,
    )

message_type-address : (ch : Chat) → (addressed ch).message_type ≡ ch.chat_type
unfolding address
message_type-address ch = ground arith

module _ (l : Listener) where
  step :
      (ch : Chat) (chs : List Chat) (r : ℕ) (ps : List (ℤ × Bytes)) (i : Inbox)
      → handle_all (hear plenty l) (record { used = []; room = r; posted = ps }) (entries ch) ≡ i
      → handle_all
          (hear plenty l)
          (record { used = []; room = r; posted = ps })
          (all_entries (ch ∷ chs))
        ≡ handle_all (hear plenty l) i (all_entries chs)
  step ch chs r ps i h =
      handle_all-append (hear plenty l) (record { used = []; room = r; posted = ps }) (entries ch)
        (all_entries chs)
      ∙ ap (λ j. handle_all (hear plenty l) j (all_entries chs)) h

  -- A player hears the messages sent to it.
  hear-entries :
      (chs : List Chat) (r : ℕ) (ps : List (ℤ × Bytes))
      → (r' : ℕ) × (handle_all
            (hear plenty l)
            (record { used = []; room = r; posted = ps })
            (all_entries chs)
          ≡ record { used = []; room = r'; posted = ps ++ heard_by l chs })
  unfolding heard_by
  hear-entries [] r ps =
      (r, ap (λ p. record { used = []; room = r; posted = p }) (sym (append-nil ps)))
  hear-entries (ch ∷ chs) r ps = elim (Bool-cases (hears l (addressed ch))) [
    | inl heard ↦
        let (r', got) =
          hear-parts l (suc (length ch.text)) (addressed ch) ch.text
            (record { used = []; room = r; posted = ps }) (omega arith) heard in
        let (r'', same) = hear-entries chs r' (ps ++ ((addressed ch).message_type, ch.text) ∷ []) in
        (
          r'',
          rw heard (
              step ch chs r ps _ got
              ∙ same
              ∙ ap (λ p. record { used = []; room = r''; posted = p })
                  (append_assoc ps (((addressed ch).message_type, ch.text) ∷ []) (heard_by l chs)
                    ∙ ap (λ ty. ps ++ (ty, ch.text) ∷ heard_by l chs) (message_type-address ch))),
        )
    | inr unheard ↦
        let (r', same) = hear-entries chs r ps in
        let kept =
          hear-parts_not_heard l (suc (length ch.text)) (addressed ch) ch.text
            (record { used = []; room = r; posted = ps }) unheard in
        (r', rw unheard (step ch chs r ps _ kept ∙ same))
  ]

  -- Whatever calls of `queue_chat` processes make, one after the other, on a sound queue whose length
  -- their entries stay below: another process, whose cursor stood at the writers' place before and
  -- whose buffer is empty, then gives its player exactly the messages that its filters let through,
  -- each whole and in order however long, with its type. Its cursor ends past all that was written.
  -- Memory is to be had.
  pub send_queued_chats-chat_all :
      (chs : List Chat) (q : Ring ChatEntry) (room : ℕ) (posted : List (ℤ × Bytes))
      → IsValid q
      → all_places chs < q.queue_len
      → (r : ℕ) × (c : Cursor) × (send_queued_chats plenty l
            (chat_all chs q)
            (set_last q)
            (record { used = []; room = room; posted = posted })
          ≡ (record { used = []; room = r; posted = posted ++ heard_by l chs }, c))
        × IsDone blank_chat (chat_all chs q) c
  unfolding send_queued_chats set_last
  send_queued_chats-chat_all chs q room posted v h =
      let es = all_entries chs in
      let few : length es < q.queue_len = omega (arith, length-all_entries chs) in
      let (v', live) =
        put_all-Live blank_chat es q q.curr_offset q.generation [] v (set_last-Live blank_chat q v)
          (omega arith) in
      let (c, same, done) =
        read_loop-Live blank_chat (hear plenty l) (put_all q es).queue_len (put_all q es)
          q.curr_offset q.generation es (record { used = []; room = room; posted = posted }) v' live
          (omega (arith, queue_len-put_all es q)) in
      let (r, heard) = hear-entries chs room posted in
      (
        r,
        c,
        rw (chat_all-put_all chs q v) (same ∙ ap (λ i. (i, c)) heard),
        rw (chat_all-put_all chs q v) done,
      )
