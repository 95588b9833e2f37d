-- ===== src/Websocket/Drip.antt =====
-- A header that comes in single bytes.
use mcchost.Base.{
  ℕ, ◌+◌, ◌-◌, ◌<◌, ◌≤◌, ◌≡◌, refl, ap, true, false, [], ◌∷◌, ◌++◌, ltb, length, min, take, arith,
  Bool-cases, inl, inr, ◌==◌, ==_iff, length-append,
}
use mcchost.Websocket.{
  Bytes, header_start, header_rest, Socket, Outcome, translated, disconnected, unexpected_opcode,
  read_before, written_past, and_then, header_size, read_header, finish_header, translate,
  websocket_translate,
}

-- The calls after one that succeeds.
unfoldable pub resume : Outcome → (Socket → Outcome) → Outcome
resume (translated out s) calls = and_then out (calls s)
resume disconnected calls = disconnected
resume unexpected_opcode calls = unexpected_opcode
resume read_before calls = read_before
resume written_past calls = written_past

-- One call for each byte.
unfoldable pub drip : Socket → Bytes → Outcome
unfolding resume
drip s [] = translated [] s
drip s (b ∷ bs) = resume (websocket_translate s (b ∷ [])) (λ after. drip after bs)

header_size_least : (l : ℕ) (buf : Bytes) → 2 ≤ header_size l buf
unfolding header_size
header_size_least l buf = ground arith

-- A socket that holds the start of a header.
abbrev pub waiting : Socket → Bytes → Socket
waiting s old = record s { websocket = header_rest; websocket_buffer = old }

module _ (s : Socket) (old : Bytes) (b : ℕ) where
  too_small :
      ltb
        (min 1 (32 - length old))
        (header_size (min 1 (32 - length old)) (old ++ take (min 1 (32 - length old)) (b ∷ [])))
      ≡ true
  too_small =
      let l = min 1 (32 - length old) in
      ground (arith, header_size_least l (old ++ take l (b ∷ [])))

  -- A single byte never ends a header that waits for more: it is kept, or written past the end.
  one_byte :
      length old < 32
      → websocket_translate (waiting s old) (b ∷ []) ≡ translated [] (waiting s (old ++ b ∷ []))
  unfolding websocket_translate translate finish_header
  one_byte room =
      let fits : ltb 32 (length old + 1) ≡ false = ground (arith, room) in rw (too_small, fits) refl

  last_byte : length old ≡ 32 → websocket_translate (waiting s old) (b ∷ []) ≡ written_past
  unfolding websocket_translate translate finish_header
  last_byte full =
      let over : ltb 32 (length old + 1) ≡ true = ground (arith, full) in rw (too_small, over) refl

  first_byte :
      s.websocket ≡ header_start
      → websocket_translate s (b ∷ []) ≡ translated [] (waiting s (b ∷ []))
  unfolding websocket_translate translate read_header header_size
  first_byte starts = rw starts refl

waiting-drip :
    (s : Socket) (bs old : Bytes)
    → length old ≤ 32
    → 32 < length old + length bs
    → drip (waiting s old) bs ≡ written_past
unfolding drip and_then
waiting-drip s [] old le many = absurd (omega (arith, le, many))
waiting-drip s (b ∷ bs) old le many = elim (Bool-cases (length old == 32)) [
  | inl full ↦ rw (last_byte s old b ((==_iff (length old) 32).0 full)) refl
  | inr room ↦
      let longer = length-append old (b ∷ []) in
      rw (one_byte s old b (ground (arith, room, le))) (
        ap (and_then []) (
          waiting-drip s bs (old ++ b ∷ []) (ground (arith, room, le, longer))
            (omega (arith, longer, many))))
]

-- A client that sends the start of a frame in single bytes, more than 32 of them, has
-- `websocket_translate` write past the end of `websocket_buffer`, whatever the bytes are.
pub drip_past :
    (s : Socket) (b : ℕ) (bs : Bytes)
    → s.websocket ≡ header_start
    → 32 ≤ length bs
    → drip s (b ∷ bs) ≡ written_past
unfolding drip and_then
drip_past s b bs starts many =
    rw (first_byte s [] b starts)
      (ap (and_then []) (waiting-drip s bs (b ∷ []) (omega arith) (omega (arith, many))))
