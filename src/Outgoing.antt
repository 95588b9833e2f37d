-- ===== src/Outgoing.antt =====
-- The buffer of bytes for the client, of requestloop.c: `write_to_remote`, `flush_to_remote` and
-- `bytes_queued_to_send`. What `write` of the system returns is an argument.
use mcchost.Base.{
  ℕ, zero, suc, ◌+◌, ◌*◌, Bool, not, ◌&&◌, Option, none, some, List, [], ◌∷◌, ◌++◌, leb, ◌==◌,
  if◌then◌else◌, take, drop, length,
}
use mcchost.Websocket.{Bytes, websocket_header}
pub mod Queue
pub mod Room

-- `ttl_buf` up to `ttl_end`, which is its length here.
pub record Buffer : Type 0 where
  pub ttl_buf : Bytes
  pub ttl_start : ℕ
  pub ttl_size : ℕ

-- At most `n` rounds of the loop that makes room for `need` bytes and one more.
unfoldable pub grow : ℕ → ℕ → ℕ → ℕ
grow zero need size = size
grow (suc n) need size =
    let more = grow n need (if size == 0 then 2048 else size * 2) in
    if leb size need then more else size

-- A message, with a frame's header where the client is on a websocket.
abbrev pub framed : Bool → Bytes → Bytes
framed websocket str = if websocket then websocket_header (length str) ++ str else str

-- The bytes that have to fit.
abbrev pub needed : Bytes → Buffer → ℕ
needed str b = length b.ttl_buf + length str + 16

unfoldable pub append_message : Bool → Bytes → Buffer → Buffer
unfolding grow
append_message websocket str b = record b {
  ttl_buf = b.ttl_buf ++ framed websocket str;
  ttl_size = grow (needed str b + 1) (needed str b) b.ttl_size;
}

-- `reallocs` is whether memory is to be had; without it the process stops.
unfoldable pub write_to_remote : Bool → Bool → Bytes → Buffer → Option Buffer
write_to_remote websocket reallocs str b =
    if leb b.ttl_size (needed str b) && not reallocs
    then none
    else some (append_message websocket str b)

abbrev pub pending : Buffer → Bytes
pending b = drop b.ttl_start b.ttl_buf

-- `write` has taken `rv` bytes.
unfoldable pub flush_to_remote : ℕ → Buffer → Buffer
flush_to_remote rv b =
    if rv == 0
    then b
    else if rv == length (pending b)
    then record b { ttl_buf = []; ttl_start = 0 }
    else record b { ttl_start = b.ttl_start + rv }

unfoldable pub bytes_queued_to_send : Buffer → ℕ
bytes_queued_to_send b = if b.ttl_start == length b.ttl_buf then 0 else 1

-- What happens to a buffer: messages, and writes that take some of its bytes.
pub data Event : Type 0 where
  message : Bytes → Event
  flush : ℕ → Event

-- The buffer and what has been written, after some events; nothing if memory runs out.
module _ (websocket reallocs : Bool) where
  unfoldable pub run : List Event → Bytes → Buffer → Option (Bytes × Buffer)
  run [] out b = some (out, b)
  run (message str ∷ es) out b = elim (write_to_remote websocket reallocs str b) [
    | none ↦ none
    | some c ↦ run es out c
  ]
  run (flush rv ∷ es) out b = run es (out ++ take rv (pending b)) (flush_to_remote rv b)

abbrev pub messages : Bool → List Event → Bytes
messages websocket [] = []
messages websocket (message str ∷ es) = framed websocket str ++ messages websocket es
messages websocket (flush rv ∷ es) = messages websocket es
