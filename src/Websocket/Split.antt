-- ===== src/Websocket/Split.antt =====
-- The data of one packet, cut by the network.
use mcchost.Base.{
  ℕ, zero, suc, ◌+◌, ◌-◌, ◌*◌, ◌%◌, ◌<◌, ◌≤◌, ◌≡◌, ◌∙◌, refl, sym, ap, ap₂, false, Option, none,
  some, [], ◌∷◌, ◌++◌, length, length-append, min, take, drop, ◌==◌, if◌then◌else◌, get_or, arith,
  append-nil,
}
use Prim.Native.Nat.{bit_xor}
use mcchost.Websocket.{
  Bytes, header_start, in_packet, Socket, translated, and_then, unmask, strip_mask, take_packet,
  read_packet, translate, websocket_translate,
}
use mcchost.Websocket.Drip.{resume}

take_all : (xs : Bytes) → take (length xs) xs ≡ xs
take_all [] = refl
take_all (x ∷ xs) = ap (◌∷◌ x) (take_all xs)

drop_all : (xs : Bytes) → drop (length xs) xs ≡ []
drop_all [] = refl
drop_all (x ∷ xs) = drop_all xs

unmask-append :
    (mask xs ys : Bytes) (id : ℕ)
    → id < 4
    → unmask mask id (xs ++ ys) ≡ unmask mask id xs ++ unmask mask ((id + length xs) % 4) ys
unfolding unmask
unmask-append mask [] ys id h =
    let same : id ≡ (id + 0) % 4 = omega (arith, h) in ap (λ i. unmask mask i ys) same
unmask-append mask (x ∷ xs) ys id h =
    let turned : ((id + 1) % 4 + length xs) % 4 ≡ (id + suc (length xs)) % 4 = omega arith in
    ap (◌∷◌ (bit_xor x (get_or mask id 0))) (
      unmask-append mask xs ys ((id + 1) % 4) (omega arith)
      ∙ ap (λ i. unmask mask ((id + 1) % 4) xs ++ unmask mask i ys) turned)

abbrev next_id : ℕ → Option ℕ → Option ℕ
next_id n none = none
next_id n (some id) = some ((id + n) % 4)

next_id_twice : (n k : ℕ) (id : Option ℕ) → next_id k (next_id n id) ≡ next_id (n + k) id
next_id_twice n k none = refl
next_id_twice n k (some id) =
    let same : ((id + n) % 4 + k) % 4 ≡ (id + (n + k)) % 4 = omega arith in ap some same

-- The socket after some bytes of a packet.
abbrev advanced : Socket → ℕ → Socket
advanced s n = record s {
  websocket = if s.packet_len - n == 0 then header_start else in_packet;
  mask_id = next_id n s.mask_id;
  packet_len = s.packet_len - n;
}

advanced_twice : (s : Socket) (n k : ℕ) → advanced (advanced s n) k ≡ advanced s (n + k)
advanced_twice s n k =
    let left : s.packet_len - n - k ≡ s.packet_len - (n + k) = omega arith in
    ap₂
      (λ p i. record s {
        websocket = if p == 0 then header_start else in_packet;
        mask_id = i;
        packet_len = p;
      })
      left (next_id_twice n k s.mask_id)

translate-nothing : (n : ℕ) (s : Socket) → translate n s [] ≡ translated [] s
unfolding translate
translate-nothing zero s = refl
translate-nothing (suc n) s = refl

translate-packet :
    (n : ℕ) (s : Socket) (inbuf : Bytes)
    → 0 < length inbuf
    → s.websocket ≡ in_packet
    → translate (suc n) s inbuf ≡ read_packet (translate n) s inbuf
unfolding translate
translate-packet n s [] some_bytes inside = absurd (omega (arith, some_bytes))
translate-packet n s (b ∷ inbuf) some_bytes inside = rw inside refl

-- Where all bytes belong to the packet.
take_packet-within :
    (s : Socket) (xs : Bytes)
    → length xs ≤ s.packet_len
    → take_packet s xs ≡ (strip_mask s xs, ([], advanced s (length xs)))
unfolding take_packet
take_packet-within s xs fits =
    let all : min (length xs) s.packet_len ≡ length xs = omega (arith, fits) in
    ap (λ n. (strip_mask s (take n xs), (drop n xs, advanced s n))) all
    ∙ ap₂ (λ b m. (strip_mask s b, (m, advanced s (length xs)))) (take_all xs) (drop_all xs)

read_packet-within :
    (n : ℕ) (s : Socket) (xs : Bytes)
    → length xs ≤ s.packet_len
    → read_packet (translate n) s xs ≡ translated (strip_mask s xs) (advanced s (length xs))
unfolding read_packet and_then
read_packet-within n s xs fits =
    ap (λ p. and_then p.0 (translate n p.1.1 p.1.0)) (take_packet-within s xs fits)
    ∙ ap (and_then (strip_mask s xs)) (translate-nothing n (advanced s (length xs)))
    ∙ ap (λ b. translated b (advanced s (length xs))) (append-nil (strip_mask s xs))

websocket_translate-within :
    (s : Socket) (xs : Bytes)
    → s.websocket ≡ in_packet
    → 0 < length xs
    → length xs ≤ s.packet_len
    → websocket_translate s xs ≡ translated (strip_mask s xs) (advanced s (length xs))
unfolding websocket_translate
websocket_translate-within s xs inside some_bytes fits =
    let rounds : 2 * length xs + 2 ≡ suc (2 * length xs + 1) = omega arith in
    ap (λ n. translate n s xs) rounds
    ∙ translate-packet (2 * length xs + 1) s xs some_bytes inside
    ∙ read_packet-within (2 * length xs + 1) s xs fits

-- A mask that stands at one of its four bytes.
abbrev pub IsAt : Option ℕ → Type 0
IsAt none = Unit
IsAt (some id) = id < 4

strip_mask-append :
    (mask xs ys : Bytes) (id : Option ℕ) (s : Socket)
    → IsAt id
    → strip_mask (record s { mask_value = mask; mask_id = id }) (xs ++ ys)
      ≡ strip_mask (record s { mask_value = mask; mask_id = id }) xs
        ++ strip_mask (advanced (record s { mask_value = mask; mask_id = id }) (length xs)) ys
unfolding strip_mask
strip_mask-append mask xs ys none s at = refl
strip_mask-append mask xs ys (some id) s at = unmask-append mask xs ys id at

-- The bytes of one packet that come in two reads are translated as in one read, with the mask going
-- on where it stood.
pub websocket_translate-append :
    (s : Socket) (xs ys : Bytes)
    → s.websocket ≡ in_packet
    → IsAt s.mask_id
    → 0 < length xs
    → 0 < length ys
    → length xs + length ys ≤ s.packet_len
    → resume (websocket_translate s xs) (λ t. websocket_translate t ys)
      ≡ websocket_translate s (xs ++ ys)
unfolding resume and_then
websocket_translate-append s xs ys inside at some_xs some_ys fits =
    let t = advanced s (length xs) in
    let more_left : (s.packet_len - length xs == 0) ≡ false = ground (arith, some_ys, fits) in
    let still : t.websocket ≡ in_packet = rw more_left refl in
    let both = length-append xs ys in
    let text : strip_mask s (xs ++ ys) ≡ strip_mask s xs ++ strip_mask t ys =
      strip_mask-append s.mask_value xs ys s.mask_id s at in
    let ends : advanced t (length ys) ≡ advanced s (length (xs ++ ys)) =
      advanced_twice s (length xs) (length ys) ∙ ap (advanced s) (sym both) in
    ap (λ o. resume o (λ u. websocket_translate u ys))
      (websocket_translate-within s xs inside some_xs (omega (arith, fits)))
    ∙ ap (and_then (strip_mask s xs))
        (websocket_translate-within t ys still some_ys (omega (arith, fits)))
    ∙ ap₂ translated (sym text) ends
    ∙ sym (
        websocket_translate-within s (xs ++ ys) inside (omega (arith, both, some_xs))
          (omega (arith, both, fits)))
