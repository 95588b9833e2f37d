-- ===== src/Tests/Outputs.antt =====
-- Two messages, with a write of three bytes between them and one of the rest.
use mcchost.Base.{◌≡◌, ◌<◌, ◌++◌, true, refl, some, List, [], ◌∷◌, arith, length}
use mcchost.Websocket.{websocket_header}
use mcchost.Outgoing.{
  Buffer, grow, append_message, write_to_remote, flush_to_remote, bytes_queued_to_send, Event,
  message, flush, run, messages,
}
use mcchost.Outgoing.Room.{write_to_remote_room}
use mcchost.Outgoing.Queue.{Fits, all_bytes, run-messages}

abbrev no_bytes : Buffer
no_bytes = record { ttl_buf = []; ttl_start = 0; ttl_size = 0 }

abbrev one_message : Buffer
one_message = record { ttl_buf = 130 ∷ 2 ∷ 7 ∷ 8 ∷ []; ttl_start = 0; ttl_size = 2048 }

one_message_written : write_to_remote true true (7 ∷ 8 ∷ []) no_bytes ≡ some one_message
unfolding write_to_remote append_message grow websocket_header
one_message_written = refl

write_to_remote_room_example : length one_message.ttl_buf < one_message.ttl_size
write_to_remote_room_example =
    write_to_remote_room true true (7 ∷ 8 ∷ []) no_bytes one_message one_message_written

abbrev events : List Event
events = message (7 ∷ 8 ∷ []) ∷ flush 3 ∷ message (9 ∷ []) ∷ flush 4 ∷ []

events_fit : Fits true events no_bytes
unfolding Fits append_message flush_to_remote grow websocket_header
events_fit = (omega arith, (omega arith, tt))

run-messages_example :
    all_bytes (run true true events [] no_bytes) ≡ some ([] ++ ([] ++ messages true events))
run-messages_example =
    run-messages true events [] no_bytes (record { inside = omega arith }) events_fit

-- The number of bytes queued is 1 at most.
one_queued : bytes_queued_to_send one_message ≡ 1
unfolding bytes_queued_to_send
one_queued = refl
