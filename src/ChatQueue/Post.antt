-- ===== src/ChatQueue/Post.antt =====
-- `queue_chat`, with `create_chat_queue` of shared.c. An entry's message is what `memcpy` has put
-- there: the bytes behind it are those of an older entry, which no reader looks at.
use mcchost.Base.{ℕ, zero, suc, List, [], ltb, leb, ◌==◌, if◌then◌else◌, length, take, drop}
use mcchost.Base.Int.{ℤ, pos, negsuc}
use mcchost.Ring.{Ring, put, Cursor, set_last}
use mcchost.Ring.Loop.{check_header}

abbrev pub Bytes : Type 0
Bytes = List ℕ

abbrev pub chat_msg_len : ℕ
chat_msg_len = 64

abbrev pub chat_queue_len : ℕ
chat_queue_len = 256

-- `chat_entry_t`.
pub record ChatEntry : Type 0 where
  pub is_global : ℤ
  pub to_level_id : ℤ
  pub to_player_id : ℤ
  pub to_team_id : ℤ
  pub not_player_id : ℤ
  pub from_player_id : ℤ
  pub message_len : ℕ
  pub message_type : ℤ
  pub message : Bytes

abbrev pub blank_chat : ChatEntry
blank_chat = record {
  is_global = pos 0;
  to_level_id = pos 0;
  to_player_id = pos 0;
  to_team_id = pos 0;
  not_player_id = pos 0;
  from_player_id = pos 0;
  message_len = 0;
  message_type = pos 0;
  message = [];
}

-- The fields that every entry of one message has.
unfoldable pub address : ℤ → ℕ → ℤ → ℤ → ChatEntry
address my_user_no to_where to_id chat_type =
    let e = record blank_chat {
      is_global = pos 0;
      to_player_id = negsuc 0;
      to_level_id = negsuc 0;
      to_team_id = negsuc 0;
      not_player_id = negsuc 0;
      from_player_id = my_user_no;
      message_type = chat_type;
    } in
    if to_where == 0
    then record e { is_global = to_id }
    else if to_where == 1
    then record e { to_player_id = to_id }
    else if to_where == 2
    then record e { to_level_id = to_id }
    else if to_where == 3
    then record e { to_team_id = to_id }
    else e

-- One entry: the length of all that is left, and the first 64 bytes of it.
unfoldable pub part : ChatEntry → Bytes → ChatEntry
part e msg = record e { message_len = length msg; message = take chat_msg_len msg }

-- At most `n` rounds of the loop, which holds the lock.
unfoldable pub post_parts : ℕ → ChatEntry → Bytes → Ring ChatEntry → Ring ChatEntry
unfolding part
post_parts zero e msg q = q
post_parts (suc n) e msg q =
    let q' = put q (part e msg) in
    let rest = drop chat_msg_len msg in
    let more = post_parts n e rest q' in if ltb 0 (length rest) then more else q'

-- The check of the file that all processes share, after which the process's own cursor is set.
unfoldable pub create_chat_queue : Ring ChatEntry → Ring ChatEntry × Cursor
create_chat_queue q = let q' = check_header chat_queue_len q in (q', set_last q')

-- Every round but the last takes bytes away, so one more than there are bytes is enough.
unfoldable pub queue_chat :
    ℤ → ℕ → ℤ → ℤ → Bytes → Ring ChatEntry → Cursor → Ring ChatEntry × Cursor
unfolding address create_chat_queue
queue_chat my_user_no to_where to_id chat_type msg q c =
    let e = address my_user_no to_where to_id chat_type in
    let (q', c') = if leb q.queue_len q.curr_offset then create_chat_queue q else (q, c) in
    (post_parts (suc (length msg)) e msg q', c')
