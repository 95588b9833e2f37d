-- ===== src/Websocket/Frames.antt =====
-- Frames, and what is left of them.
use mcchost.Base.{
  ℕ, ◌-◌, ◌%◌, ◌≤◌, ◌≡◌, ◌∙◌, refl, ap, ap₂, true, false, [], ◌∷◌, ◌++◌, ltb, ◌==◌, length,
  length-append, min, take, drop, get_or, arith,
}
use mcchost.Websocket.{
  Bytes, header_start, Socket, Outcome, and_then, header_size, header_len, strip_mask, start_packet,
  take_packet, read_packet, open_packet, read_header,
}

take-append : (xs ys : Bytes) → take (length xs) (xs ++ ys) ≡ xs
take-append [] ys = refl
take-append (x ∷ xs) ys = ap (◌∷◌ x) (take-append xs ys)

drop-append : (xs ys : Bytes) → drop (length xs) (xs ++ ys) ≡ ys
drop-append [] ys = refl
drop-append (x ∷ xs) ys = drop-append xs ys

-- A header that opens a packet of text or binary data.
pub record Opens (header : Bytes) (n : ℕ) : Type 0 where
  pub not_empty : 2 ≤ length header
  pub size : (more : Bytes) → header_size (length (header ++ more)) (header ++ more) ≡ length header
  pub op : get_or header 0 0 % 16 ≡ 2
  pub len : header_len header ≡ n

module _ (header body more : Bytes) (opens : Opens header (length body)) where
  abbrev pub opened : Socket
  opened = start_packet (length header) header

  abbrev pub after : Socket
  after = (take_packet opened (body ++ more)).1.1

  opened_len : opened.packet_len ≡ length body
  unfolding start_packet
  opened_len = opens.len

  count_whole : min (length (body ++ more)) opened.packet_len ≡ length body
  count_whole = omega (arith, opened_len, length-append body more)

  pub after_starts : after.websocket ≡ header_start
  unfolding take_packet
  after_starts =
      let none_left : (opened.packet_len - min (length (body ++ more)) opened.packet_len == 0)
          ≡ true =
        ground (arith, count_whole, opened_len) in
      rw none_left refl

  header_whole :
      (rest : Socket → Bytes → Outcome) (s : Socket)
      → read_header rest s (header ++ (body ++ more))
        ≡ open_packet rest (length header) header (body ++ more)
  unfolding read_header
  header_whole rest s =
      let whole : ltb (length (header ++ (body ++ more))) (length header) ≡ false =
        ground (arith, length-append header (body ++ more)) in
      rw
        (
          opens.size (body ++ more),
          whole,
          take-append header (body ++ more),
          drop-append header (body ++ more),
        )
        refl

  open_whole :
      (rest : Socket → Bytes → Outcome)
      → open_packet rest (length header) header (body ++ more)
        ≡ read_packet rest opened (body ++ more)
  unfolding open_packet
  open_whole rest = rw opens.op refl

  packet_whole :
      (rest : Socket → Bytes → Outcome)
      → read_packet rest opened (body ++ more) ≡ and_then (strip_mask opened body) (rest after more)
  unfolding read_packet
  packet_whole rest = ap₂ (λ b m. and_then b (rest after m)) bytes left
    where
      bytes : (take_packet opened (body ++ more)).0 ≡ strip_mask opened body
      bytes =
          unfold take_packet in
          (ap (λ n. strip_mask opened (take n (body ++ more))) count_whole
            ∙ ap (strip_mask opened) (take-append body more))

      left : (take_packet opened (body ++ more)).1.0 ≡ more
      left =
          unfold take_packet in
          (ap (λ n. drop n (body ++ more)) count_whole ∙ drop-append body more)

  -- A frame that is there as a whole gives its bytes, and the rest of the input is read from the next
  -- header on.
  pub read_whole :
      (rest : Socket → Bytes → Outcome) (s : Socket)
      → read_header rest s (header ++ (body ++ more))
        ≡ and_then (strip_mask opened body) (rest after more)
  read_whole rest s = header_whole rest s ∙ open_whole rest ∙ packet_whole rest
