-- ===== src/Tests/Chats.antt =====
-- Chat lines and commands on queues of a few entries.
use mcchost.Base.{ℕ, ◌≡◌, ◌++◌, ◌==◌, false, List, [], ◌∷◌, replicate, arith}
use mcchost.Base.Int.{ℤ, pos, pos_part}
use mcchost.Ring.{Ring, Cursor, wiped, reading, set_last}
use mcchost.Ring.Follow.{IsValid}
use mcchost.Ring.Loop.{check_header, check_header-IsValid, IsDone}
use mcchost.ChatQueue.Post.{ChatEntry, blank_chat}
use mcchost.ChatQueue.Hear.{Listener, send_queued_chats}
use mcchost.ChatQueue.Parts.{plenty}
use mcchost.ChatQueue.Deliver.{Chat, chat_all, heard_by, send_queued_chats-chat_all}
use mcchost.CommandQueue.Post.{CmdPayload, CmdEntry, process_queued_cmds}
use mcchost.CommandQueue.Obey.{Command, send_commands, obey_all, process_queued_cmds-send_commands}

abbrev bad_header : Ring ℕ
bad_header = record { generation = 0; curr_offset = 9; queue_len = 7; updates = 1 ∷ 2 ∷ 3 ∷ [] }

check_header-IsValid_example : IsValid (check_header 3 bad_header)
check_header-IsValid_example =
    check_header-IsValid 3 bad_header (omega arith) (omega arith) (omega arith)

abbrev chats_ring : Ring ChatEntry
chats_ring = record {
  generation = 2;
  curr_offset = 3;
  queue_len = 5;
  updates = replicate 5 blank_chat;
}

chats_ring-IsValid : IsValid chats_ring
chats_ring-IsValid = record {
  offset_in = omega arith;
  room = omega arith;
  len_fits = omega arith;
  generation_fits = omega arith;
}

-- Player 1 on level 4, who ignores player 9.
abbrev player : Listener
player = record {
  my_user_no = pos 1;
  on_level = pos 4;
  level_chat = false;
  ignores = λ id. pos_part id == 9;
}

-- A long text for all, one for another player, and a short one for level 4.
abbrev some_chats : List Chat
some_chats =
    record {
      from = pos 2;
      cursor = wiped;
      to_where = 0;
      to_id = pos 1;
      chat_type = pos 0;
      text = replicate 70 b'x';
    }
    ∷ record {
      from = pos 2;
      cursor = wiped;
      to_where = 1;
      to_id = pos 3;
      chat_type = pos 0;
      text = b'n' ∷ b'o' ∷ [];
    }
    ∷ record {
      from = pos 7;
      cursor = reading 3 2;
      to_where = 2;
      to_id = pos 4;
      chat_type = pos 100;
      text = b'h' ∷ b'i' ∷ [];
    }
    ∷ []

send_queued_chats-chat_all_example :
    (r : ℕ) × (c : Cursor) × (send_queued_chats plenty player
        (chat_all some_chats chats_ring)
        (set_last chats_ring)
        (record { used = []; room = 0; posted = [] })
      ≡ (record { used = []; room = r; posted = heard_by player some_chats }, c))
    × IsDone blank_chat (chat_all some_chats chats_ring) c
send_queued_chats-chat_all_example =
    send_queued_chats-chat_all player some_chats chats_ring 0 [] chats_ring-IsValid (omega arith)

abbrev nothing_asked : CmdEntry
nothing_asked = record {
  to_level_id = pos 0;
  to_player_id = pos 0;
  to_team_id = pos 0;
  not_player_id = pos 0;
  msg = record { cmd_token = 0; arg = [] };
}

abbrev cmds_ring : Ring CmdEntry
cmds_ring = record {
  generation = 2;
  curr_offset = 3;
  queue_len = 5;
  updates = replicate 5 nothing_asked;
}

cmds_ring-IsValid : IsValid cmds_ring
cmds_ring-IsValid = record {
  offset_in = omega arith;
  room = omega arith;
  len_fits = omega arith;
  generation_fits = omega arith;
}

-- The commands that a process has obeyed, as its state.
abbrev keep_tokens : List ℕ → CmdPayload → List ℕ
keep_tokens done msg = done ++ msg.cmd_token ∷ []

abbrev stay_put : List ℕ → ℤ
stay_put done = pos 4

abbrev some_commands : List Command
some_commands =
    record {
      cursor = wiped;
      to_where = 1;
      to_id = pos 1;
      payload = record { cmd_token = 3; arg = b'x' ∷ [] };
    }
    ∷ record {
      cursor = wiped;
      to_where = 2;
      to_id = pos 5;
      payload = record { cmd_token = 1; arg = [] };
    }
    ∷ record {
      cursor = wiped;
      to_where = 0;
      to_id = pos 0;
      payload = record { cmd_token = 2; arg = [] };
    }
    ∷ []

process_queued_cmds-send_commands_example :
    (c : Cursor) × (process_queued_cmds keep_tokens stay_put nothing_asked
        (pos 1)
        (send_commands some_commands cmds_ring)
        (set_last cmds_ring)
        []
      ≡ (obey_all keep_tokens stay_put (pos 1) [] some_commands, c))
    × IsDone nothing_asked (send_commands some_commands cmds_ring) c
process_queued_cmds-send_commands_example =
    process_queued_cmds-send_commands keep_tokens stay_put nothing_asked (pos 1) some_commands
      cmds_ring [] cmds_ring-IsValid (omega arith)
