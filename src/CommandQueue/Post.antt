-- ===== src/CommandQueue/Post.antt =====
-- `send_ipc_cmd` and `process_queued_cmds`, with `create_cmd_queue` of shared.c.
use mcchost.Base.{ℕ, Bool, false, not, ◌&&◌, List, leb, ◌==◌, if◌then◌else◌}
use mcchost.Base.Int.{eq_ℤ, is_nonneg, ℤ, negsuc}
use mcchost.Ring.{Ring, put, Cursor, set_last}
use mcchost.Ring.Loop.{check_header, read_loop}

-- `cmd_payload_t`: the number of its token, and its text.
pub record CmdPayload : Type 0 where
  pub cmd_token : ℕ
  pub arg : List ℕ

-- `cmd_entry_t`.
pub record CmdEntry : Type 0 where
  pub to_level_id : ℤ
  pub to_player_id : ℤ
  pub to_team_id : ℤ
  pub not_player_id : ℤ
  pub msg : CmdPayload

abbrev pub cmd_queue_len : ℕ
cmd_queue_len = 256

unfoldable pub cmd_entry : ℕ → ℤ → CmdPayload → CmdEntry
cmd_entry to_where to_id pkt =
    let e : CmdEntry = record {
      to_player_id = negsuc 0;
      to_level_id = negsuc 0;
      to_team_id = negsuc 0;
      not_player_id = negsuc 0;
      msg = pkt;
    } in
    if to_where == 1
    then record e { to_player_id = to_id }
    else if to_where == 2
    then record e { to_level_id = to_id }
    else if to_where == 3
    then record e { to_team_id = to_id }
    else e

-- The check of the file that all processes share, after which the process's own cursor is set.
unfoldable pub create_cmd_queue : Ring CmdEntry → Ring CmdEntry × Cursor
create_cmd_queue q = let q' = check_header cmd_queue_len q in (q', set_last q')

unfoldable pub send_ipc_cmd : ℕ → ℤ → CmdPayload → Ring CmdEntry → Cursor → Ring CmdEntry × Cursor
unfolding cmd_entry create_cmd_queue
send_ipc_cmd to_where to_id pkt q c =
    let (q', c') = if leb q.queue_len q.curr_offset then create_cmd_queue q else (q, c) in
    (put q' (cmd_entry to_where to_id pkt), c')

-- The chain of `continue`s; `my_level` is the level that the player's slot is on.
unfoldable pub is_for_me : ℤ → ℤ → CmdEntry → Bool
is_for_me my_user_no my_level e =
    if is_nonneg e.not_player_id && eq_ℤ e.not_player_id my_user_no
    then false
    else if is_nonneg e.to_player_id && not (eq_ℤ e.to_player_id my_user_no)
    then false
    else if is_nonneg e.to_level_id && not (eq_ℤ e.to_level_id my_level)
    then false
    else not (is_nonneg e.to_team_id)

-- The rest of the process is a state `S`, which `process_ipc_cmd` changes; a command may move the
-- player to another level.
module _ {S : Type 0} (process_ipc_cmd : S → CmdPayload → S) (on_level : S → ℤ) where
  unfoldable pub obey : ℤ → S → CmdEntry → S
  unfolding is_for_me
  obey my_user_no s e =
      let done = process_ipc_cmd s e.msg in if is_for_me my_user_no (on_level s) e then done else s

  -- Where nothing is written meanwhile, a reader is less than `queue_len` entries behind.
  unfoldable pub process_queued_cmds : CmdEntry → ℤ → Ring CmdEntry → Cursor → S → S × Cursor
  process_queued_cmds blank my_user_no q c s = read_loop blank (obey my_user_no) q.queue_len q c s
