-- ===== src/Receive/Stream.antt =====
-- The server's loop over what the network delivers, and what a stream of packets is.
use mcchost.Base.{
  ℕ, ◌<◌, ◌≡◌, ◌≢◌, ◌∙◌, ◌⊎◌, inl, inr, refl, sym, ap, List, [], ◌∷◌, ◌++◌, append_assoc, length,
  arith,
}
use mcchost.Receive.Frame.{
  Bytes, Outcome, fatal, running, head_or, then_receive, receive_bytes, remote_received,
}
use mcchost.Receive.Segments.{
  receive_bytes-append, receive_packet, receive_partial, remote_received-receive_bytes,
}

-- All the bytes of some chunks, or of some packets, in their order.
abbrev pub joined : List Bytes → Bytes
joined [] = []
joined (b ∷ bs) = b ++ joined bs

-- A read delivers one byte at least.
unfoldable pub AreFilled : List Bytes → Type 0
AreFilled [] = Unit
AreFilled (b ∷ bs) = (b ≢ []) × AreFilled bs

module _ {S : Type 0} (msglen : S → ℕ → ℕ) (process : S → ℕ → Bytes → S) where
  -- `remote_received`, read after read.
  unfoldable pub receive_chunks : ℕ → S → Bytes → List Bytes → Outcome S
  receive_chunks stale s rcvd [] = running s rcvd
  receive_chunks stale s rcvd (str ∷ chunks) =
      then_receive msglen process (remote_received msglen process stale s rcvd str)
        (λ s' rcvd'. receive_chunks stale s' rcvd' chunks)

  -- What the packets mean, each taken whole.
  unfoldable pub process_all : S → List Bytes → S
  process_all s [] = s
  process_all s (pkt ∷ pkts) = process_all (process s (head_or pkt 0) pkt) pkts

  -- Each packet has the length that the state it comes in gives its type.
  unfoldable pub Fit : S → List Bytes → Type 0
  Fit s [] = Unit
  Fit s (pkt ∷ pkts) =
      (pkt ≢ [])
      × (length pkt ≡ msglen s (head_or pkt 0))
      × Fit (process s (head_or pkt 0) pkt) pkts

  -- Nothing, or the start of a packet.
  abbrev pub IsUnfinished : S → Bytes → Type 0
  IsUnfinished s tail = (tail ≡ []) ⊎ (length tail < msglen s (head_or tail 0))

  then_receive-same :
      (o : Outcome S) {j k : S → Bytes → Outcome S}
      → ((s : S) (r : Bytes) → j s r ≡ k s r)
      → then_receive msglen process o j ≡ then_receive msglen process o k
  then_receive-same fatal h = refl
  then_receive-same (running s r) h = h s r

  -- However the bytes are cut into chunks, the result is the one of the bytes in a row.
  receive_chunks-receive_bytes :
      (stale : ℕ) (s : S) (rcvd : Bytes) (chunks : List Bytes)
      → AreFilled chunks
      → receive_chunks stale s rcvd chunks ≡ receive_bytes msglen process s rcvd (joined chunks)
  unfolding receive_chunks AreFilled receive_bytes
  receive_chunks-receive_bytes stale s rcvd [] f = refl
  receive_chunks-receive_bytes stale s rcvd ([] ∷ chunks) (f, fs) = absurd (f refl)
  receive_chunks-receive_bytes stale s rcvd ((c ∷ str) ∷ chunks) (f, fs) =
      rw (remote_received-receive_bytes msglen process stale s rcvd c str) (
        then_receive-same (receive_bytes msglen process s rcvd (c ∷ str))
          (λ s' r. receive_chunks-receive_bytes stale s' r chunks fs)
        ∙ sym (receive_bytes-append msglen process s rcvd (c ∷ str) (joined chunks)))

  receive_bytes-joined :
      (s : S) (pkts : List Bytes) (tail : Bytes)
      → Fit s pkts
      → receive_bytes msglen process s [] (joined pkts ++ tail)
        ≡ receive_bytes msglen process (process_all s pkts) [] tail
  unfolding Fit process_all
  receive_bytes-joined s [] tail f = refl
  receive_bytes-joined s ([] ∷ pkts) tail (f, l, fs) = absurd (f refl)
  receive_bytes-joined s ((c ∷ pkt) ∷ pkts) tail (f, l, fs) =
      rw
        (
          append_assoc (c ∷ pkt) (joined pkts) tail,
          receive_bytes-append msglen process s [] (c ∷ pkt) (joined pkts ++ tail),
          receive_packet msglen process s [] c pkt (omega (l, arith)),
        )
        (receive_bytes-joined (process s c (c ∷ pkt)) pkts tail fs)

  receive_bytes-IsUnfinished :
      (s : S) (tail : Bytes)
      → IsUnfinished s tail
      → receive_bytes msglen process s [] tail ≡ running s tail
  unfolding receive_bytes
  receive_bytes-IsUnfinished s tail (inl e) = rw e refl
  receive_bytes-IsUnfinished s tail (inr l) =
      receive_partial msglen process s [] tail (omega (l, arith))

  -- However the network cuts a stream of packets into reads, whatever lengths the packets' types
  -- have as the connection goes on: where the stream is whole packets and at most the start of one
  -- more, `remote_received` gives `process_client_message` exactly these packets, in order and
  -- whole, and keeps the rest.
  pub receive_chunks-process_all :
      (stale : ℕ) (s : S) (pkts chunks : List Bytes) (tail : Bytes)
      → Fit s pkts
      → IsUnfinished (process_all s pkts) tail
      → AreFilled chunks
      → joined chunks ≡ joined pkts ++ tail
      → receive_chunks stale s [] chunks ≡ running (process_all s pkts) tail
  receive_chunks-process_all stale s pkts chunks tail fit unfinished filled same =
      receive_chunks-receive_bytes stale s [] chunks filled
      ∙ ap (receive_bytes msglen process s []) same
      ∙ receive_bytes-joined s pkts tail fit
      ∙ receive_bytes-IsUnfinished (process_all s pkts) tail unfinished
