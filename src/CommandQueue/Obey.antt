-- ===== src/CommandQueue/Obey.antt =====
-- From `send_ipc_cmd` in one process to `process_ipc_cmd` in another.
use mcchost.Base.{
  ℕ, ◌<◌, ◌≡◌, ◌∙◌, refl, ap, false, List, [], ◌∷◌, arith, leb, if◌then◌else◌, length, length-map,
  map,
}
use mcchost.Base.Int.{ℤ}
use mcchost.Ring.{Ring, Cursor, put, set_last}
use mcchost.Ring.Follow.{IsValid, put-IsValid}
use mcchost.Ring.Loop.{
  put_all, handle_all, IsDone, read_loop-Live, put_all-Live, queue_len-put_all, set_last-Live,
}
use mcchost.CommandQueue.Post.{
  CmdPayload, CmdEntry, cmd_entry, send_ipc_cmd, is_for_me, obey, process_queued_cmds,
}

-- A call of `send_ipc_cmd`: the caller's cursor, and its arguments.
pub record Command : Type 0 where
  pub cursor : Cursor
  pub to_where : ℕ
  pub to_id : ℤ
  pub payload : CmdPayload

-- Calls of `send_ipc_cmd` by whichever processes, one after the other.
unfoldable pub send_commands : List Command → Ring CmdEntry → Ring CmdEntry
send_commands [] q = q
send_commands (m ∷ ms) q =
    let (q', c) = send_ipc_cmd m.to_where m.to_id m.payload q m.cursor in send_commands ms q'

abbrev entry_of : Command → CmdEntry
entry_of m = cmd_entry m.to_where m.to_id m.payload

send_ipc_cmd-put :
    (m : Command) (q : Ring CmdEntry)
    → IsValid q
    → send_ipc_cmd m.to_where m.to_id m.payload q m.cursor ≡ (put q (entry_of m), m.cursor)
unfolding send_ipc_cmd
send_ipc_cmd-put m q v =
    let room : leb q.queue_len q.curr_offset ≡ false = ground arith in rw room refl

send_commands-put_all :
    (ms : List Command) (q : Ring CmdEntry)
    → IsValid q
    → send_commands ms q ≡ put_all q (map entry_of ms)
unfolding send_commands
send_commands-put_all [] q v = refl
send_commands-put_all (m ∷ ms) q v =
    rw (send_ipc_cmd-put m q v)
      (send_commands-put_all ms (put q (entry_of m)) (put-IsValid q (entry_of m) v))

module _ {S : Type 0} (process_ipc_cmd : S → CmdPayload → S) (on_level : S → ℤ) where
  -- What a player's process does with some commands: those for it, in order.
  unfoldable pub obey_all : ℤ → S → List Command → S
  obey_all me s [] = s
  obey_all me s (m ∷ ms) =
      let mine = is_for_me me (on_level s) (cmd_entry m.to_where m.to_id m.payload) in
      obey_all me (if mine then process_ipc_cmd s m.payload else s) ms

  obey-entry_of :
      (me : ℤ) (s : S) (m : Command)
      → obey process_ipc_cmd on_level me s (entry_of m)
        ≡ (if is_for_me me (on_level s) (entry_of m) then process_ipc_cmd s m.payload else s)
  unfolding obey cmd_entry
  obey-entry_of me s m = ground arith

  handle_all-obey :
      (me : ℤ) (ms : List Command) (s : S)
      → handle_all (obey process_ipc_cmd on_level me) s (map entry_of ms) ≡ obey_all me s ms
  unfolding obey_all
  handle_all-obey me [] s = refl
  handle_all-obey me (m ∷ ms) s =
      ap (λ t. handle_all (obey process_ipc_cmd on_level me) t (map entry_of ms))
        (obey-entry_of me s m)
      ∙ handle_all-obey me ms _

  -- Whatever commands processes send, one after the other, on a sound queue, fewer than it is long:
  -- another process, whose cursor stood at the writers' place before, then obeys exactly those that
  -- are for its player, in order, each judged by the level that the player is on by then. Its cursor
  -- ends past all that was written.
  pub process_queued_cmds-send_commands :
      (blank : CmdEntry) (me : ℤ) (ms : List Command) (q : Ring CmdEntry) (s : S)
      → IsValid q
      → length ms < q.queue_len
      → (c : Cursor) × (process_queued_cmds process_ipc_cmd on_level blank me
            (send_commands ms q)
            (set_last q)
            s
          ≡ (obey_all me s ms, c))
        × IsDone blank (send_commands ms q) c
  unfolding process_queued_cmds set_last
  process_queued_cmds-send_commands blank me ms q s v h =
      let es = map entry_of ms in
      let few : length es < q.queue_len = omega (arith, length-map entry_of ms) in
      let (v', live) =
        put_all-Live blank es q q.curr_offset q.generation [] v (set_last-Live blank q v)
          (omega arith) in
      let (c, same, done) =
        read_loop-Live blank (obey process_ipc_cmd on_level me) (put_all q es).queue_len
          (put_all q es) q.curr_offset q.generation es s v' live
          (omega (arith, queue_len-put_all es q)) in
      (
        c,
        rw (send_commands-put_all ms q v) (same ∙ ap (λ t. (t, c)) (handle_all-obey me ms s)),
        rw (send_commands-put_all ms q v) done,
      )
