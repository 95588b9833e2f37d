-- ===== src/Websocket/Stream.antt =====
-- A stream of whole frames.
use mcchost.Base.{
  ℕ, zero, suc, ◌+◌, ◌*◌, ◌<◌, ◌≤◌, ◌≡◌, ◌∙◌, refl, ap, ap₂, Option, none, some, List, [], ◌∷◌,
  ◌++◌, length, length-append, arith,
}
use mcchost.Websocket.{
  Bytes, Phase, header_start, Socket, Outcome, translated, disconnected, unexpected_opcode,
  read_before, written_past, and_then, read_header, unmask, strip_mask, translate,
  websocket_translate, websocket_header,
}
use mcchost.Websocket.Mask.{AreBytes, IsMask, unmask_twice, length-unmask}
use mcchost.Websocket.Frames.{Opens, opened, after, after_starts, read_whole}
use mcchost.Websocket.Headers.{
  add_mask, IsSafe, plain_header, masked_header, strip_plain, strip_masked,
}

-- A packet of a server or of a client, with the mask that the client draws.
pub data Frame : Type 0 where
  plain : Bytes → Frame
  masked : ℕ → ℕ → ℕ → ℕ → Bytes → Frame

abbrev pub payload : Frame → Bytes
payload (plain bs) = bs
payload (masked a b c d bs) = bs

abbrev pub head : Frame → Bytes
head (plain bs) = websocket_header (length bs)
head (masked a b c d bs) = add_mask (a ∷ b ∷ c ∷ d ∷ []) (websocket_header (length bs))

abbrev pub body : Frame → Bytes
body (plain bs) = bs
body (masked a b c d bs) = unmask (a ∷ b ∷ c ∷ d ∷ []) 0 bs

abbrev pub IsFrame : Frame → Type 0
IsFrame (plain bs) = IsSafe (length bs)
IsFrame (masked a b c d bs) = IsSafe (length bs) × (IsMask (a ∷ b ∷ c ∷ d ∷ []) × AreBytes bs)

abbrev pub AreFrames : List Frame → Type 0
AreFrames [] = Unit
AreFrames (f ∷ fs) = IsFrame f × AreFrames fs

abbrev pub encode : List Frame → Bytes
encode [] = []
encode (f ∷ fs) = head f ++ (body f ++ encode fs)

abbrev pub payloads : List Frame → Bytes
payloads [] = []
payloads (f ∷ fs) = payload f ++ payloads fs

-- The bytes that a call leaves, and what the next byte belongs to then.
abbrev pub seen : Outcome → Option (Bytes × Phase)
seen (translated bs s) = some (bs, s.websocket)
seen disconnected = none
seen unexpected_opcode = none
seen read_before = none
seen written_past = none

abbrev before : Bytes → Option (Bytes × Phase) → Option (Bytes × Phase)
before out none = none
before out (some (more, p)) = some (out ++ more, p)

seen-and_then : (out : Bytes) (o : Outcome) → seen (and_then out o) ≡ before out (seen o)
unfolding and_then
seen-and_then out (translated more s) = refl
seen-and_then out disconnected = refl
seen-and_then out unexpected_opcode = refl
seen-and_then out read_before = refl
seen-and_then out written_past = refl

length-body : (f : Frame) → length (body f) ≡ length (payload f)
length-body (plain bs) = refl
length-body (masked a b c d bs) = length-unmask (a ∷ b ∷ c ∷ d ∷ []) bs 0

head-Opens : (f : Frame) → IsFrame f → Opens (head f) (length (body f))
head-Opens (plain bs) h = plain_header (length bs) h
head-Opens (masked a b c d bs) h =
    rw (length-unmask (a ∷ b ∷ c ∷ d ∷ []) bs 0) (masked_header (length bs) a b c d h.0)

-- What the server takes from a frame is the payload.
strip-body :
    (f : Frame)
    → IsFrame f
    → (h : Opens (head f) (length (body f))) → (more : Bytes)
    → strip_mask (opened (head f) (body f) more h) (body f) ≡ payload f
strip-body (plain bs) s h more = strip_plain (length bs) bs s
strip-body (masked a b c d bs) s h more =
    let mask = a ∷ b ∷ c ∷ d ∷ [] in
    strip_masked (length bs) a b c d (unmask mask 0 bs) s.0 ∙ unmask_twice mask bs 0 s.1.0 s.1.1

translate-header :
    (n : ℕ) (s : Socket) (inbuf : Bytes)
    → 0 < length inbuf
    → s.websocket ≡ header_start
    → translate (suc n) s inbuf ≡ read_header (translate n) s inbuf
unfolding translate
translate-header n s [] some_bytes starts = absurd (omega (arith, some_bytes))
translate-header n s (b ∷ inbuf) some_bytes starts = rw starts refl

translate-encode :
    (fs : List Frame) (n : ℕ) (s : Socket)
    → AreFrames fs
    → length fs ≤ n
    → s.websocket ≡ header_start
    → seen (translate n s (encode fs)) ≡ some (payloads fs, header_start)
unfolding translate
translate-encode [] zero s all enough starts = ap (λ p. some ([], p)) starts
translate-encode [] (suc n) s all enough starts = ap (λ p. some ([], p)) starts
translate-encode (f ∷ fs) zero s all enough starts = absurd (omega (arith, enough))
translate-encode (f ∷ fs) (suc n) s all enough starts =
    let opens = head-Opens f all.0 in
    let more = encode fs in
    let next = after (head f) (body f) more opens in
    let some_bytes : 0 < length (head f ++ (body f ++ more)) =
      omega (arith, opens.not_empty, length-append (head f) (body f ++ more)) in
    let rest : seen (translate n next more) ≡ some (payloads fs, header_start) =
      translate-encode fs n next all.1 (omega (arith, enough))
        (after_starts (head f) (body f) more opens) in
    ap seen (
      translate-header n s (head f ++ (body f ++ more)) some_bytes starts
      ∙ read_whole (head f) (body f) more opens (translate n) s)
    ∙ seen-and_then (strip_mask (opened (head f) (body f) more opens) (body f))
        (translate n next more)
    ∙ ap₂ before (strip-body f all.0 opens more) rest

-- There are no more frames than bytes.
length-encode : (fs : List Frame) → AreFrames fs → length fs ≤ length (encode fs)
length-encode [] all = omega arith
length-encode (f ∷ fs) all = omega (
  arith,
  length-encode fs all.1,
  (head-Opens f all.0).not_empty,
  length-append (head f) (body f ++ encode fs),
  length-append (body f) (encode fs),
)

-- `websocket_translate` leaves the payloads of the frames of one read, in order and without their
-- masks, and then waits for a header, where each length is below 125 or from 126 to 65535.
pub websocket_translate-encode :
    (fs : List Frame) (s : Socket)
    → AreFrames fs
    → s.websocket ≡ header_start
    → seen (websocket_translate s (encode fs)) ≡ some (payloads fs, header_start)
unfolding websocket_translate
websocket_translate-encode fs s all starts =
    translate-encode fs (2 * length (encode fs) + 2) s all (omega (arith, length-encode fs all))
      starts
