-- ===== src/Tests/Sockets.antt =====
-- Frames of a websocket, whole and in single bytes.
use mcchost.Base.{
  ◌++◌, ◌≡◌, ◌<◌, ℕ, zero, suc, refl, none, some, List, [], ◌∷◌, arith, get_or, inl, replicate,
}
use mcchost.Websocket.{
  header_start, in_packet, Socket, written_past, read_before, header_size, and_then, read_packet,
  open_packet, read_header, finish_header, translate, websocket_translate,
}
use mcchost.Websocket.Mask.{IsMask}
use mcchost.Websocket.Stream.{
  Frame, plain, masked, AreFrames, encode, payloads, seen, websocket_translate-encode,
}
use mcchost.Websocket.Split.{websocket_translate-append}
use mcchost.Websocket.Drip.{resume, drip, drip_past}

abbrev pub open_socket : Socket
open_socket = record {
  websocket = header_start;
  mask_value = 0 ∷ 0 ∷ 0 ∷ 0 ∷ [];
  mask_id = none;
  packet_len = 0;
  websocket_buffer = [];
}

abbrev frames : List Frame
frames = masked 17 34 51 68 (8 ∷ 255 ∷ 0 ∷ 1 ∷ 2 ∷ []) ∷ plain (5 ∷ 6 ∷ []) ∷ []

pub four_bytes-IsMask : IsMask (17 ∷ 34 ∷ 51 ∷ 68 ∷ [])
four_bytes-IsMask = record { below = below }
  where
    below : (i : ℕ) → get_or (17 ∷ 34 ∷ 51 ∷ 68 ∷ []) i 0 < 256
    below zero = omega arith
    below (suc zero) = omega arith
    below (suc (suc zero)) = omega arith
    below (suc (suc (suc zero))) = omega arith
    below (suc (suc (suc (suc i)))) = omega arith

frames-AreFrames : AreFrames frames
frames-AreFrames = (
  (
    inl (omega arith),
    (
      four_bytes-IsMask,
      (omega arith, (omega arith, (omega arith, (omega arith, (omega arith, tt))))),
    ),
  ),
  (inl (omega arith), tt),
)

websocket_translate-encode_example :
    seen (websocket_translate open_socket (encode frames)) ≡ some (payloads frames, header_start)
websocket_translate-encode_example =
    websocket_translate-encode frames open_socket frames-AreFrames refl

-- A masked frame whose header comes in two pieces of 3 and 4 bytes is read from before the input.
split_header :
    resume (websocket_translate open_socket (130 ∷ 133 ∷ 17 ∷ [])) (λ s.
      resume
        (websocket_translate s (34 ∷ 51 ∷ 68 ∷ 25 ∷ []))
        (λ t. websocket_translate t (221 ∷ 51 ∷ 69 ∷ 19 ∷ 0 ∷ 0 ∷ 0 ∷ [])))
    ≡ read_before
unfolding resume websocket_translate translate read_header finish_header open_packet read_packet
    header_size and_then
split_header = refl

drip_past_example : drip open_socket (130 ∷ replicate 32 133) ≡ written_past
drip_past_example = drip_past open_socket 130 (replicate 32 133) refl (omega arith)

-- Two of the seven bytes of a masked packet have come.
abbrev in_between : Socket
in_between = record {
  websocket = in_packet;
  mask_value = 17 ∷ 34 ∷ 51 ∷ 68 ∷ [];
  mask_id = some 2;
  packet_len = 5;
  websocket_buffer = [];
}

websocket_translate-append_example :
    resume
      (websocket_translate in_between (1 ∷ 2 ∷ 3 ∷ []))
      (λ t. websocket_translate t (4 ∷ 5 ∷ []))
    ≡ websocket_translate in_between ((1 ∷ 2 ∷ 3 ∷ []) ++ (4 ∷ 5 ∷ []))
websocket_translate-append_example =
    websocket_translate-append in_between (1 ∷ 2 ∷ 3 ∷ []) (4 ∷ 5 ∷ []) refl (omega arith)
      (omega arith) (omega arith) (omega arith)
