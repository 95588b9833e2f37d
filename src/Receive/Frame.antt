-- ===== src/Receive/Frame.antt =====
-- `remote_received` of requestloop.c: cutting what arrives into packets. The rest of the server is a
-- state `S`, on which `msglen` depends, and which `process` (`process_client_message`) changes.
use mcchost.Base.{ℕ, ◌&&◌, List, [], ◌∷◌, ◌++◌, leb, ◌==◌, if◌then◌else◌, length}

abbrev pub Bytes : Type 0
Bytes = List ℕ

-- The server stops for an unknown packet; else it goes on with a state and the start of a packet,
-- `rcvdpkt[0..in_rcvd)`.
pub data Outcome (S : Type 0) : Type 0 where
  fatal : Outcome S
  running : S → Bytes → Outcome S

-- The first byte of a packet, its type.
abbrev pub head_or : Bytes → ℕ → ℕ
head_or [] d = d
head_or (c ∷ _) d = c

module _ {S : Type 0} (msglen : S → ℕ → ℕ) (process : S → ℕ → Bytes → S) where
  -- The body of the loop.
  unfoldable pub receive_byte : S → Bytes → ℕ → Outcome S
  receive_byte s rcvd c =
      let pkt = rcvd ++ c ∷ [] in
      let cmd = head_or pkt 0 in
      if leb (msglen s cmd) (length pkt)
      then if msglen s cmd == 0 then fatal else running (process s cmd pkt) []
      else running s pkt

  abbrev pub then_receive : Outcome S → (S → Bytes → Outcome S) → Outcome S
  then_receive fatal k = fatal
  then_receive (running s rcvd) k = k s rcvd

  unfoldable pub receive_bytes : S → Bytes → Bytes → Outcome S
  receive_bytes s rcvd [] = running s rcvd
  receive_bytes s rcvd (c ∷ str) =
      then_receive (receive_byte s rcvd c) (λ s' rcvd'. receive_bytes s' rcvd' str)

  -- `stale` is the byte at `str` where `len` is 0: it is read all the same.
  unfoldable pub remote_received : ℕ → S → Bytes → Bytes → Outcome S
  remote_received stale s rcvd str =
      let cmd = head_or str stale in
      if length rcvd == 0 && msglen s cmd == length str
      then running (process s cmd str) rcvd
      else receive_bytes s rcvd str
