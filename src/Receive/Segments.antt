-- ===== src/Receive/Segments.antt =====
-- How the network cuts the stream does not matter.
use mcchost.Base.{
  ℕ, suc, ◌+◌, ◌<◌, ◌≡◌, ◌∙◌, refl, sym, ap, Bool, false, ◌&&◌, [], ◌∷◌, ◌++◌, append-nil,
  append_assoc, ◌==◌, length, length-append, arith, Bool-cases, inl, inr,
}
use mcchost.Receive.Frame.{
  Bytes, Outcome, fatal, running, head_or, receive_byte, then_receive, receive_bytes,
  remote_received,
}

if-never : (n : ℕ) (b : Bool) → ((suc n == 0) && b) ≡ false
if-never n b = ground arith

module _ {S : Type 0} (msglen : S → ℕ → ℕ) (process : S → ℕ → Bytes → S) where
  pub receive_bytes-append :
      (s : S) (rcvd a b : Bytes)
      → receive_bytes msglen process s rcvd (a ++ b)
        ≡ then_receive msglen process
            (receive_bytes msglen process s rcvd a)
            (λ s' r. receive_bytes msglen process s' r b)
  unfolding receive_bytes
  receive_bytes-append s rcvd [] b = refl
  receive_bytes-append s rcvd (c ∷ a) b =
      go (receive_byte msglen process s rcvd c) (λ s' r. receive_bytes-append s' r a b)
    where
      go :
          (o : Outcome S)
          → ((s' : S) (r : Bytes)
              → receive_bytes msglen process s' r (a ++ b)
                ≡ then_receive msglen process
                    (receive_bytes msglen process s' r a)
                    (λ s'' r'. receive_bytes msglen process s'' r' b))
          → then_receive msglen process o (λ s' r. receive_bytes msglen process s' r (a ++ b))
            ≡ then_receive msglen process
                (then_receive msglen process o (λ s' r. receive_bytes msglen process s' r a))
                (λ s'' r'. receive_bytes msglen process s'' r' b)
      go fatal h = refl
      go (running s' r) h = h s' r

  receive_byte_short :
      (s : S) (rcvd : Bytes) (c : ℕ)
      → length rcvd + 1 < msglen s (head_or (rcvd ++ c ∷ []) 0)
      → receive_byte msglen process s rcvd c ≡ running s (rcvd ++ c ∷ [])
  unfolding receive_byte
  receive_byte_short s rcvd c h = ground (length-append {0} rcvd (c ∷ []), arith)

  receive_byte_full :
      (s : S) (rcvd : Bytes) (c : ℕ)
      → length rcvd + 1 ≡ msglen s (head_or (rcvd ++ c ∷ []) 0)
      → receive_byte msglen process s rcvd c
        ≡ running (process s (head_or (rcvd ++ c ∷ []) 0) (rcvd ++ c ∷ [])) []
  unfolding receive_byte
  receive_byte_full s rcvd c h = ground (length-append {0} rcvd (c ∷ []), arith)

  head_or-snoc :
      (a : Bytes) (c : ℕ) (rest : Bytes) → head_or (a ++ c ∷ rest) 0 ≡ head_or (a ++ c ∷ []) 0
  head_or-snoc [] c rest = refl
  head_or-snoc (x ∷ a) c rest = refl

  pub receive_packet :
      (s : S) (rcvd : Bytes) (c : ℕ) (rest : Bytes)
      → length rcvd + length (c ∷ rest) ≡ msglen s (head_or (rcvd ++ c ∷ rest) 0)
      → receive_bytes msglen process s rcvd (c ∷ rest)
        ≡ running (process s (head_or (rcvd ++ c ∷ rest) 0) (rcvd ++ c ∷ rest)) []
  unfolding receive_bytes
  receive_packet s rcvd c [] h = rw (receive_byte_full s rcvd c h)
  receive_packet s rcvd c (d ∷ rest) h = rw (receive_byte_short s rcvd c short) (
      receive_packet s (rcvd ++ c ∷ []) d rest whole
      ∙ ap (λ p. running (process s (head_or p 0) p) []) (append_assoc rcvd (c ∷ []) (d ∷ rest)))
    where
      short : length rcvd + 1 < msglen s (head_or (rcvd ++ c ∷ []) 0)
      short = rw (sym (head_or-snoc rcvd c (d ∷ rest))) (omega (h, arith))

      whole :
          length (rcvd ++ c ∷ []) + length (d ∷ rest)
          ≡ msglen s (head_or ((rcvd ++ c ∷ []) ++ d ∷ rest) 0)
      whole =
          rw (append_assoc rcvd (c ∷ []) (d ∷ rest))
            (omega (h, length-append {0} rcvd (c ∷ []), arith))

  -- What comes before the end of a packet is kept.
  pub receive_partial :
      (s : S) (rcvd rest : Bytes)
      → length rcvd + length rest < msglen s (head_or (rcvd ++ rest) 0)
      → receive_bytes msglen process s rcvd rest ≡ running s (rcvd ++ rest)
  unfolding receive_bytes
  receive_partial s rcvd [] h = ap (running s) (sym (append-nil rcvd))
  receive_partial s rcvd (c ∷ rest) h = rw (receive_byte_short s rcvd c short) (
      receive_partial s (rcvd ++ c ∷ []) rest whole
      ∙ ap (running s) (append_assoc rcvd (c ∷ []) rest))
    where
      short : length rcvd + 1 < msglen s (head_or (rcvd ++ c ∷ []) 0)
      short = rw (sym (head_or-snoc rcvd c rest)) (omega (h, arith))

      whole :
          length (rcvd ++ c ∷ []) + length rest < msglen s (head_or ((rcvd ++ c ∷ []) ++ rest) 0)
      whole =
          rw (append_assoc rcvd (c ∷ []) rest) (omega (h, length-append {0} rcvd (c ∷ []), arith))

  -- The short cut for a chunk that is one packet does what the loop does.
  pub remote_received-receive_bytes :
      (stale : ℕ) (s : S) (rcvd : Bytes) (c : ℕ) (str : Bytes)
      → remote_received msglen process stale s rcvd (c ∷ str)
        ≡ receive_bytes msglen process s rcvd (c ∷ str)
  unfolding remote_received
  remote_received-receive_bytes stale s [] c str =
      elim (Bool-cases (msglen s c == length (c ∷ str))) [
        | inl same ↦ rw same (sym (receive_packet s [] c str (ground (same, arith))))
        | inr other ↦ rw other refl
      ]
  remote_received-receive_bytes stale s (x ∷ rcvd) c str =
      rw (if-never (length rcvd) (msglen s c == length (c ∷ str)))
