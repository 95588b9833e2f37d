-- ===== src/Inbound/Packets.antt =====
-- Packets that come in frames.
use mcchost.Base.{ℕ, ◌≡◌, ◌∙◌, refl, ap, Option, none, some, List, [], ◌∷◌, ◌++◌, arith}
use mcchost.Websocket.{
  header_start, Socket, Outcome, translated, disconnected, unexpected_opcode, read_before,
  written_past, websocket_translate,
}
use mcchost.Websocket.Stream.{Frame, AreFrames, encode, payloads, seen, websocket_translate-encode}
use mcchost.Receive.Frame.{Bytes, fatal, running, then_receive, remote_received}
use mcchost.Receive.Frame as Frame
use mcchost.Receive.Stream.{
  joined, AreFilled, receive_chunks, process_all, Fit, IsUnfinished, receive_chunks-process_all,
}
use mcchost.Inbound.{Inbound, lost, live, receive_translated, receive_reads}

-- Each read is of whole frames.
abbrev pub AllFrames : List (List Frame) → Type 0
AllFrames [] = Unit
AllFrames (fs ∷ fss) = AreFrames fs × AllFrames fss

abbrev pub encodings : List (List Frame) → List Bytes
encodings [] = []
encodings (fs ∷ fss) = encode fs ∷ encodings fss

abbrev pub contents : List (List Frame) → List Bytes
contents [] = []
contents (fs ∷ fss) = payloads fs ∷ contents fss

module _ {S : Type 0} (msglen : S → ℕ → ℕ) (process : S → ℕ → Bytes → S) where
  -- The server's state and the start of a packet, as far as the connection goes on.
  abbrev pub state_of : Inbound S → Option (S × Bytes)
  state_of lost = none
  state_of (live t s rcvd) = some (s, rcvd)

  abbrev went_on : Frame.Outcome S → Option (S × Bytes)
  went_on fatal = none
  went_on (running s rcvd) = some (s, rcvd)

  module _ (stale : ℕ) (s : S) (rcvd : Bytes) (rest : Socket → S → Bytes → Inbound S)
      (k : S → Bytes → Frame.Outcome S) where
    -- The rest of the reads goes the way of the rest of the contents.
    abbrev Agree : Type 0
    Agree =
        (t : Socket) (s' : S) (r : Bytes)
        → t.websocket ≡ header_start
        → state_of (rest t s' r) ≡ went_on (k s' r)

    receive_one :
        (str : Bytes) (t : Socket)
        → t.websocket ≡ header_start
        → Agree
        → state_of (receive_translated msglen process stale s rcvd rest (translated str t))
          ≡ went_on
              (then_receive msglen process (remote_received msglen process stale s rcvd str) k)
    unfolding receive_translated
    receive_one str t starts agree = on_outcome (remote_received msglen process stale s rcvd str)
      where
        on_outcome :
            (o : Frame.Outcome S)
            → state_of (elim o [ fatal ↦ lost | running s' r ↦ rest t s' r ])
              ≡ went_on (then_receive msglen process o k)
        on_outcome fatal = refl
        on_outcome (running s' r) = agree t s' r starts

    receive_translated-seen :
        (o : Outcome) (bs : Bytes)
        → seen o ≡ some (bs, header_start)
        → Agree
        → state_of (receive_translated msglen process stale s rcvd rest o)
          ≡ went_on (then_receive msglen process (remote_received msglen process stale s rcvd bs) k)
    receive_translated-seen (translated str t) bs h agree =
        let text : str ≡ bs = ap (λ o. elim o [ none ↦ str | some q ↦ q.0 ]) h in
        let starts : t.websocket ≡ header_start =
          ap (λ o. elim o [ none ↦ t.websocket | some q ↦ q.1 ]) h in
        receive_one str t starts agree
        ∙ ap
            (λ b.
              went_on
                (then_receive msglen process (remote_received msglen process stale s rcvd b) k))
            text
    receive_translated-seen disconnected bs h agree = absurd (ground (arith, h))
    receive_translated-seen unexpected_opcode bs h agree = absurd (ground (arith, h))
    receive_translated-seen read_before bs h agree = absurd (ground (arith, h))
    receive_translated-seen written_past bs h agree = absurd (ground (arith, h))

  receive_reads-receive_chunks :
      (stale : ℕ) (t : Socket) (s : S) (rcvd : Bytes) (fss : List (List Frame))
      → AllFrames fss
      → t.websocket ≡ header_start
      → state_of (receive_reads msglen process stale t s rcvd (encodings fss))
        ≡ went_on (receive_chunks msglen process stale s rcvd (contents fss))
  unfolding receive_reads receive_chunks
  receive_reads-receive_chunks stale t s rcvd [] all starts = refl
  receive_reads-receive_chunks stale t s rcvd (fs ∷ fss) all starts =
      receive_translated-seen stale s rcvd
        (λ t' s' r. receive_reads msglen process stale t' s' r (encodings fss))
        (λ s' r. receive_chunks msglen process stale s' r (contents fss))
        (websocket_translate t (encode fs)) (payloads fs)
        (websocket_translate-encode fs t all.0 starts)
        (λ t' s' r starts'. receive_reads-receive_chunks stale t' s' r fss all.1 starts')

  -- Packets that a client on a websocket sends, cut into frames in any way, are processed once, whole
  -- and in order, and the unfinished rest is kept, where every read is of whole frames, with one
  -- byte at least in them.
  pub receive_reads-process_all :
      (stale : ℕ) (t : Socket) (s : S) (pkts : List Bytes) (tail : Bytes) (fss : List (List Frame))
      → AllFrames fss
      → t.websocket ≡ header_start
      → Fit msglen process s pkts
      → IsUnfinished msglen process (process_all msglen process s pkts) tail
      → AreFilled (contents fss)
      → joined (contents fss) ≡ joined pkts ++ tail
      → state_of (receive_reads msglen process stale t s [] (encodings fss))
        ≡ some (process_all msglen process s pkts, tail)
  receive_reads-process_all stale t s pkts tail fss all starts fit unfinished filled same =
      receive_reads-receive_chunks stale t s [] fss all starts
      ∙ ap went_on (
          receive_chunks-process_all msglen process stale s pkts (contents fss) tail fit unfinished
            filled same)
