-- ===== src/Inbound.antt =====
-- The way of a client's bytes, of `do_select` in requestloop.c: from the reads of the system through
-- the frames of a websocket into packets.
use mcchost.Base.{ℕ, List, [], ◌∷◌}
use mcchost.Websocket.{
  Socket, Outcome, translated, disconnected, unexpected_opcode, read_before, written_past,
  websocket_translate,
}
use mcchost.Receive.Frame.{Bytes, fatal, running, remote_received}
pub mod Packets

-- The connection is lost, or goes on with its socket, the server's state and the start of a packet.
pub data Inbound (S : Type 0) : Type 0 where
  lost : Inbound S
  live : Socket → S → Bytes → Inbound S

module _ {S : Type 0} (msglen : S → ℕ → ℕ) (process : S → ℕ → Bytes → S) where
  -- What is done with the outcome of `websocket_translate`, and then with that of `remote_received`.
  unfoldable pub receive_translated :
      ℕ → S → Bytes → (Socket → S → Bytes → Inbound S) → Outcome → Inbound S
  receive_translated stale s rcvd rest (translated str t) =
      elim (remote_received msglen process stale s rcvd str) [
        | fatal ↦ lost
        | running s' rcvd' ↦ rest t s' rcvd'
      ]
  receive_translated stale s rcvd rest disconnected = lost
  receive_translated stale s rcvd rest unexpected_opcode = lost
  receive_translated stale s rcvd rest read_before = lost
  receive_translated stale s rcvd rest written_past = lost

  -- One read after the other, on a websocket.
  unfoldable pub receive_reads : ℕ → Socket → S → Bytes → List Bytes → Inbound S
  receive_reads stale t s rcvd [] = live t s rcvd
  receive_reads stale t s rcvd (read ∷ reads) =
      receive_translated stale s rcvd (λ t' s' rcvd'. receive_reads stale t' s' rcvd' reads)
        (websocket_translate t read)
