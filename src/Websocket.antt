-- ===== src/Websocket.antt =====
-- websocket.c: `websocket_translate`, which takes the frames off what the client sends, and
-- `websocket_header`, which starts a frame.
use mcchost.Base.{
  ℕ, zero, suc, ◌+◌, ◌-◌, ◌*◌, ◌/◌, ◌%◌, ◌^◌, min, Bool, not, ◌&&◌, ◌||◌, List, [], ◌∷◌, ◌++◌, ltb,
  leb, ◌==◌, if◌then◌else◌, get_or, take, drop, length, Option, none, some, u8, shr,
}
use Prim.Native.Nat.{bit_xor}
pub mod Mask
pub mod Frames
pub mod Headers
pub mod Stream
pub mod Drip
pub mod Split

abbrev pub Bytes : Type 0
Bytes = List ℕ

-- What the next byte belongs to.
pub data Phase : Type 0 where
  header_start header_rest in_packet : Phase

-- The variables of the connection. `mask_id` is absent where it is -1; `websocket_buffer` holds its
-- `websocket_buffer_sz` bytes.
pub record Socket : Type 0 where
  pub websocket : Phase
  pub mask_value : Bytes
  pub mask_id : Option ℕ
  pub packet_len : ℕ
  pub websocket_buffer : Bytes

-- The end of a call: the bytes that are left for the server, a disconnect, an opcode that stops the
-- server, a read before the start of the input, or a write past the end of `websocket_buffer`.
pub data Outcome : Type 0 where
  translated : Bytes → Socket → Outcome
  disconnected unexpected_opcode read_before written_past : Outcome

-- The size of a header, as far as `l` bytes tell.
unfoldable pub header_size : ℕ → Bytes → ℕ
header_size l buf =
    let flags = get_or buf 1 0 in
    let masked = if leb 2 l && leb 128 flags then 6 else 2 in
    let short = if leb masked l && flags % 128 == 126 then masked + 2 else masked in
    if leb short l && flags % 128 == 125 then short + 8 else short

-- A number of `n` bytes, the highest first.
unfoldable pub big_endian : ℕ → Bytes → ℕ
big_endian acc [] = acc
big_endian acc (b ∷ bs) = big_endian (acc * 256 + b) bs

unfoldable pub header_len : Bytes → ℕ
unfolding big_endian
header_len buf =
    let len = get_or buf 1 0 % 128 in
    if len == 127
    then big_endian 0 (take 8 (drop 2 buf)) % 2 ^ 64
    else if len == 126
    then big_endian 0 (take 2 (drop 2 buf))
    else len

-- The bytes of the packet with their mask taken off.
unfoldable pub unmask : Bytes → ℕ → Bytes → Bytes
unmask mask id [] = []
unmask mask id (b ∷ bs) = bit_xor b (get_or mask id 0) ∷ unmask mask ((id + 1) % 4) bs

unfoldable pub strip_mask : Socket → Bytes → Bytes
unfolding unmask
strip_mask s bs = elim s.mask_id [ none ↦ bs | some id ↦ unmask s.mask_value id bs ]

-- A header of `size` bytes is complete.
unfoldable pub start_packet : ℕ → Bytes → Socket
unfolding header_len
start_packet size buf =
    let masked = leb 128 (get_or buf 1 0) in
    record {
      websocket = in_packet;
      mask_value = if masked then take 4 (drop (size - 4) buf) else 0 ∷ 0 ∷ 0 ∷ 0 ∷ [];
      mask_id = if masked then some 0 else none;
      packet_len = header_len buf;
      websocket_buffer = buf;
    }

-- The bytes at hand that belong to the packet, and what follows them.
unfoldable pub take_packet : Socket → Bytes → Bytes × (Bytes × Socket)
unfolding strip_mask
take_packet s inbuf =
    let n = min (length inbuf) s.packet_len in
    let left = s.packet_len - n in
    (
      strip_mask s (take n inbuf),
      (
        drop n inbuf,
        record s {
          websocket = if left == 0 then header_start else in_packet;
          mask_id = elim s.mask_id [ none ↦ none | some id ↦ some ((id + n) % 4) ];
          packet_len = left;
        },
      ),
    )

-- What goes before the bytes that the rest of the input gives.
unfoldable pub and_then : Bytes → Outcome → Outcome
and_then out (translated more s) = translated (out ++ more) s
and_then out disconnected = disconnected
and_then out unexpected_opcode = unexpected_opcode
and_then out read_before = read_before
and_then out written_past = written_past

module _ (rest : Socket → Bytes → Outcome) where
  -- The packet's bytes, and the rest of the loop.
  unfoldable pub read_packet : Socket → Bytes → Outcome
  read_packet s inbuf =
      let parts = take_packet s inbuf in and_then parts.0 (rest parts.1.1 parts.1.0)

  -- A packet whose header is complete.
  unfoldable pub open_packet : ℕ → Bytes → Bytes → Outcome
  open_packet size buf inbuf =
      let s = start_packet size buf in
      let op = get_or buf 0 0 % 16 in
      if op == 8
      then disconnected
      else if not (op == 1 || op == 2) && not (s.packet_len == 0)
      then unexpected_opcode
      else read_packet s inbuf

  -- A call that starts with a new header.
  unfoldable pub read_header : Socket → Bytes → Outcome
  read_header s inbuf =
      let size = header_size (length inbuf) inbuf in
      if ltb (length inbuf) size
      then translated [] (record s { websocket = header_rest; websocket_buffer = inbuf })
      else open_packet size (take size inbuf) (drop size inbuf)

  -- A call that goes on with a header. The size is compared with the new bytes alone.
  unfoldable pub finish_header : Socket → Bytes → Outcome
  finish_header s inbuf =
      let old = s.websocket_buffer in
      let l = min (length inbuf) (32 - length old) in
      let buf = old ++ take l inbuf in
      let size = header_size l buf in
      if ltb l size
      then (if ltb 32 (length old + length inbuf)
          then written_past
          else translated []
              (record s { websocket = header_rest; websocket_buffer = old ++ inbuf }))
      else if ltb size (length old)
      then read_before
      else open_packet size buf (drop (size - length old) inbuf)

-- At most `n` rounds of the loop.
unfoldable pub translate : ℕ → Socket → Bytes → Outcome
translate zero s inbuf = translated [] s
translate (suc n) s [] = translated [] s
translate (suc n) s (b ∷ inbuf) = elim s.websocket [
  | header_start ↦ read_header (translate n) s (b ∷ inbuf)
  | header_rest ↦ finish_header (translate n) s (b ∷ inbuf)
  | in_packet ↦ read_packet (translate n) s (b ∷ inbuf)
]

-- Each round takes a byte of the input at the least, but for one that ends a header.
unfoldable pub websocket_translate : Socket → Bytes → Outcome
websocket_translate s inbuf = translate (2 * length inbuf + 2) s inbuf

unfoldable pub websocket_header : ℕ → Bytes
websocket_header len =
    if ltb len 126
    then 130 ∷ len ∷ []
    else if ltb len 65536
    then 130 ∷ 126 ∷ shr len 8 % 256 ∷ len % 256 ∷ []
    else 130
      ∷ 127
      ∷ 0
      ∷ 0
      ∷ 0
      ∷ 0
      ∷ shr len 24 % 256
      ∷ shr len 16 % 256
      ∷ shr len 8 % 256
      ∷ len % 256
      ∷ []
