-- ===== src/ChatQueue/Hear.antt =====
-- `send_queued_chats`: which entries a player hears, and how the parts of a message come together.
use mcchost.Base.{
  ℕ, ◌+◌, Bool, false, not, ◌&&◌, List, [], ◌∷◌, ◌++◌, leb, ◌==◌, if◌then◌else◌, length, take, min,
}
use mcchost.Base.Int.{eq_ℤ, is_nonneg, ℤ, pos, negsuc, ltb_ℤ}
use mcchost.Ring.{Ring, Cursor}
use mcchost.Ring.Loop.{read_loop}
use mcchost.ChatQueue.Post.{Bytes, chat_msg_len, ChatEntry, blank_chat}

-- What the filters read: the player's slot and level, whether the level keeps its chat to itself, and
-- which slots hold an active player on the ignore list.
pub record Listener : Type 0 where
  pub my_user_no : ℤ
  pub on_level : ℤ
  pub level_chat : Bool
  pub ignores : ℤ → Bool

abbrev max_user : ℕ
max_user = 1024

abbrev max_level : ℕ
max_level = 256

unfoldable pub my_level : Listener → ℤ
my_level l = if ltb_ℤ l.on_level (pos max_level) then l.on_level else negsuc 0

-- The chain of `continue`s.
unfoldable pub hears : Listener → ChatEntry → Bool
unfolding my_level
hears l e =
    let known = is_nonneg e.from_player_id && ltb_ℤ e.from_player_id (pos max_user) in
    let filtered = is_nonneg (my_level l) && l.level_chat && not (eq_ℤ e.is_global (pos 0)) in
    if is_nonneg e.not_player_id && eq_ℤ e.not_player_id l.my_user_no
    then false
    else if is_nonneg e.to_player_id && not (eq_ℤ e.to_player_id l.my_user_no)
    then false
    else if is_nonneg e.to_level_id && not (eq_ℤ e.to_level_id (my_level l))
    then false
    else if filtered
    then false
    else if is_nonneg e.to_team_id
    then false
    else not (known && l.ignores e.from_player_id)

-- The statics of the buffer, `used` being its `queue_tmp_buf_used` bytes and `room` its
-- `queue_tmp_buf_len`, with the calls of `post_chat` so far, each a type and a text.
pub record Inbox : Type 0 where
  pub used : Bytes
  pub room : ℕ
  pub posted : List (ℤ × Bytes)

unfoldable pub post : ℤ → Bytes → Inbox → Inbox
post type text i = record i { posted = i.posted ++ (type, text) ∷ [] }

-- The part goes into the buffer; the last part of a message sends the buffer off.
unfoldable pub join_part : ChatEntry → Bytes → Inbox → Inbox
unfolding post
join_part e text i =
    let j = record i { used = i.used ++ text } in
    if leb e.message_len chat_msg_len
    then record (post e.message_type j.used j) { used = [] }
    else j

-- `enough_memory` says whether `realloc` gives that many bytes.
unfoldable pub take_in : (ℕ → Bool) → ChatEntry → Inbox → Inbox
unfolding post join_part
take_in enough_memory e i =
    let text = take (min e.message_len chat_msg_len) e.message in
    let wanted = length i.used + length text + chat_msg_len in
    let grown = join_part e text (record i { room = wanted }) in
    let failed = record i { used = []; room = 0 } in
    if leb e.message_len chat_msg_len && length i.used == 0
    then post e.message_type text i
    else if leb i.room (length i.used + length text)
    then if enough_memory wanted then grown else failed
    else join_part e text i

unfoldable pub hear : (ℕ → Bool) → Listener → Inbox → ChatEntry → Inbox
unfolding hears take_in
hear enough_memory l i e = if hears l e then take_in enough_memory e i else i

-- Where nothing is written meanwhile, a reader is less than `queue_len` entries behind.
unfoldable pub send_queued_chats :
    (ℕ → Bool) → Listener → Ring ChatEntry → Cursor → Inbox → Inbox × Cursor
send_queued_chats enough_memory l q c i =
    read_loop blank_chat (hear enough_memory l) q.queue_len q c i
