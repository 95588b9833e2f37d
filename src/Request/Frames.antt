-- ===== src/Request/Frames.antt =====
-- No packet is read past its end.
use mcchost.Base.{
  ℕ, zero, suc, ◌+◌, ◌*◌, ◌≤◌, ◌<◌, ◌≡◌, refl, ap, ap₂, Bool, true, false, [], ◌∷◌, ◌++◌, arith,
  length, take, ◌==◌, if◌then◌else◌,
}
use mcchost.Base.Int.{ℤ, pos, ◌-ℤ◌, ◌*ℤ◌}
use mcchost.Receive.Frame.{Bytes}
use mcchost.Request.Read.{byte_at, field_at, uint_be16, int_be16, int_be32}
use mcchost.Request.Handle.{
  Link, read_setblock, read_posn, read_coord, posn_start, read_message, handle_extinfo,
  handle_custblock, handle_pingpong, click_calls, read_click, extentry_calls, plugin_calls,
  dispatch,
}

byte_at-append :
    (pkt more : Bytes) (i : ℕ) → i < length pkt → byte_at (pkt ++ more) i ≡ byte_at pkt i
byte_at-append [] more i h = absurd (omega arith)
byte_at-append (c ∷ pkt) more zero h = refl
byte_at-append (c ∷ pkt) more (suc i) h = byte_at-append pkt more i (omega arith)

take-append : (n : ℕ) (pkt more : Bytes) → n ≤ length pkt → take n (pkt ++ more) ≡ take n pkt
take-append zero pkt more h = refl
take-append (suc n) [] more h = absurd (omega arith)
take-append (suc n) (c ∷ pkt) more h = ap (◌∷◌ c) (take-append n pkt more (omega arith))

field_at-append :
    (pkt more : Bytes) (i : ℕ) → i + 64 ≤ length pkt → field_at (pkt ++ more) i ≡ field_at pkt i
field_at-append pkt more zero h = take-append 64 pkt more (omega arith)
field_at-append [] more (suc i) h = absurd (omega arith)
field_at-append (c ∷ pkt) more (suc i) h = field_at-append pkt more i (omega arith)

uint_be16-append :
    (pkt more : Bytes) (i : ℕ) → i + 2 ≤ length pkt → uint_be16 (pkt ++ more) i ≡ uint_be16 pkt i
unfolding uint_be16
uint_be16-append pkt more i h =
    ap₂ (λ a b. a + b * 256) (byte_at-append pkt more (i + 1) (omega arith))
      (byte_at-append pkt more i (omega arith))

int_be16-append :
    (pkt more : Bytes) (i : ℕ) → i + 2 ≤ length pkt → int_be16 (pkt ++ more) i ≡ int_be16 pkt i
unfolding int_be16
int_be16-append pkt more i h = rw (uint_be16-append pkt more i h) refl

int_be32-append :
    (pkt more : Bytes) (i : ℕ) → i + 4 ≤ length pkt → int_be32 (pkt ++ more) i ≡ int_be32 pkt i
unfolding int_be32
int_be32-append pkt more i h =
    rw
      (
        byte_at-append pkt more (i + 3) (omega arith),
        byte_at-append pkt more (i + 2) (omega arith),
        byte_at-append pkt more (i + 1) (omega arith),
        byte_at-append pkt more i (omega arith),
      )
      refl

-- The bytes that the client's packet of each kind has at the least.
unfoldable pub read_len : Link → ℕ → ℕ
read_len l cmd =
    if cmd == 0x05
    then if l.extn_extendblockno then 10 else 9
    else if cmd == 0x08
    then posn_start l + (if l.extn_extentityposn then 14 else 8)
    else if cmd == 0x0d
    then 66
    else if cmd == 0x10
    then 67
    else if cmd == 0x11
    then 69
    else if cmd == 0x13
    then 2
    else if cmd == 0x22
    then 15
    else if cmd == 0x2b
    then 4
    else if cmd == 0x35
    then 66
    else 0

held-append :
    (ext : Bool) (pkt more : Bytes)
    → (if ext then 10 else 9) ≤ length pkt
    → (if ext then uint_be16 (pkt ++ more) 8 else byte_at (pkt ++ more) 8)
      ≡ (if ext then uint_be16 pkt 8 else byte_at pkt 8)
held-append true pkt more h = uint_be16-append pkt more 8 h
held-append false pkt more h = byte_at-append pkt more 8 h

setblock-append :
    (l : Link) (pkt more : Bytes)
    → (if l.extn_extendblockno then 10 else 9) ≤ length pkt
    → read_setblock l (pkt ++ more) ≡ read_setblock l pkt
unfolding read_setblock
setblock-append l pkt more h =
    let n : 9 ≤ length pkt = ground arith in
    rw
      (
        uint_be16-append pkt more 1 (omega arith),
        uint_be16-append pkt more 3 (omega arith),
        uint_be16-append pkt more 5 (omega arith),
        byte_at-append pkt more 7 (omega arith),
        held-append l.extn_extendblockno pkt more h,
      )
      refl

coord-append :
    (ext cpe : Bool) (pkt more : Bytes) (at : ℕ) (o : ℤ)
    → at + (if ext then 4 else 2) ≤ length pkt
    → (if ext
        then int_be32 (pkt ++ more) at
        else if cpe
        then int_be16 (pkt ++ more) at
        else int_be16 (pkt ++ more) at -ℤ o)
      ≡ (if ext then int_be32 pkt at else if cpe then int_be16 pkt at else int_be16 pkt at -ℤ o)
coord-append true cpe pkt more at o h = int_be32-append pkt more at h
coord-append false true pkt more at o h = int_be16-append pkt more at h
coord-append false false pkt more at o h = ap (λ v. v -ℤ o) (int_be16-append pkt more at h)

coord_room :
    (ext : Bool) (s k n : ℕ)
    → k < 3
    → s + (if ext then 14 else 8) ≤ n
    → s + k * (if ext then 4 else 2) + (if ext then 4 else 2) ≤ n
coord_room true s k n h r = omega arith
coord_room false s k n h r = omega arith

angle_room :
    (ext : Bool) (s n : ℕ) → s + (if ext then 14 else 8) ≤ n → s + (if ext then 12 else 6) + 1 < n
angle_room true s n r = omega arith
angle_room false s n r = omega arith

read_coord-append :
    (l : Link) (pkt more : Bytes) (k : ℕ) (o : ℤ)
    → k < 3
    → posn_start l + (if l.extn_extentityposn then 14 else 8) ≤ length pkt
    → read_coord l (pkt ++ more) k o ≡ read_coord l pkt k o
unfolding read_coord
read_coord-append l pkt more k o h r =
    coord-append l.extn_extentityposn l.cpe_requested pkt more _ (o *ℤ pos 32)
      (coord_room l.extn_extentityposn (posn_start l) k (length pkt) h r)

posn-append :
    (l : Link) (pkt more : Bytes)
    → posn_start l + (if l.extn_extentityposn then 14 else 8) ≤ length pkt
    → read_posn l (pkt ++ more) ≡ read_posn l pkt
unfolding read_posn
posn-append l pkt more r =
    let s : 2 ≤ posn_start l = unfold posn_start in ground arith in
    let a = angle_room l.extn_extentityposn (posn_start l) (length pkt) r in
    rw
      (
        read_coord-append l pkt more 0 l.offset_x (omega arith) r,
        read_coord-append l pkt more 1 l.offset_y (omega arith) r,
        read_coord-append l pkt more 2 l.offset_z (omega arith) r,
        uint_be16-append pkt more 1 (omega arith),
        byte_at-append pkt more 1 (omega arith),
        byte_at-append pkt more (posn_start l + (if l.extn_extentityposn then 12 else 6))
            (omega arith),
        byte_at-append pkt more (posn_start l + (if l.extn_extentityposn then 12 else 6) + 1) a,
      )
      refl

message-append :
    (l : Link) (pkt more : Bytes)
    → 66 ≤ length pkt
    → read_message l (pkt ++ more) ≡ read_message l pkt
unfolding read_message
message-append l pkt more h =
    rw (byte_at-append pkt more 1 (omega arith), field_at-append pkt more 2 h) refl

extinfo-append :
    (l : Link) (pkt more : Bytes)
    → 67 ≤ length pkt
    → handle_extinfo l (pkt ++ more) ≡ handle_extinfo l pkt
unfolding handle_extinfo
extinfo-append l pkt more h =
    rw (field_at-append pkt more 1 (omega arith), int_be16-append pkt more 65 h) refl

custblock-append :
    (l : Link) (pkt more : Bytes)
    → 2 ≤ length pkt
    → handle_custblock l (pkt ++ more) ≡ handle_custblock l pkt
unfolding handle_custblock
custblock-append l pkt more h = rw (byte_at-append pkt more 1 h) refl

read_click-append : (pkt more : Bytes) → 15 ≤ length pkt → read_click (pkt ++ more) ≡ read_click pkt
unfolding read_click
read_click-append pkt more h =
    rw
      (
        byte_at-append pkt more 1 (omega arith),
        byte_at-append pkt more 2 (omega arith),
        int_be16-append pkt more 3 (omega arith),
        int_be16-append pkt more 5 (omega arith),
        byte_at-append pkt more 7 (omega arith),
        int_be16-append pkt more 8 (omega arith),
        int_be16-append pkt more 10 (omega arith),
        int_be16-append pkt more 12 (omega arith),
        byte_at-append pkt more 14 (omega arith),
      )
      refl

click-append :
    (l : Link) (pkt more : Bytes)
    → 15 ≤ length pkt
    → click_calls l (pkt ++ more) ≡ click_calls l pkt
unfolding click_calls
click-append l pkt more h = rw (read_click-append pkt more h) refl

pingpong-append :
    (l : Link) (pkt more : Bytes)
    → 4 ≤ length pkt
    → handle_pingpong l (pkt ++ more) ≡ handle_pingpong l pkt
unfolding handle_pingpong
pingpong-append l pkt more h =
    rw (uint_be16-append pkt more 2 h, byte_at-append pkt more 1 (omega arith)) refl

extentry-append :
    (l : Link) (pkt more : Bytes)
    → 69 ≤ length pkt
    → extentry_calls l (pkt ++ more) ≡ extentry_calls l pkt
unfolding extentry_calls
extentry-append l pkt more h =
    rw (field_at-append pkt more 1 (omega arith), int_be32-append pkt more 65 h) refl

plugin-append :
    (l : Link) (pkt more : Bytes)
    → 66 ≤ length pkt
    → plugin_calls l (pkt ++ more) ≡ plugin_calls l pkt
unfolding plugin_calls
plugin-append l pkt more h =
    rw (byte_at-append pkt more 1 (omega arith), field_at-append pkt more 2 h) refl

pub dispatch-append :
    (l : Link) (cmd : ℕ) (pkt more : Bytes)
    → read_len l cmd ≤ length pkt
    → dispatch l cmd (pkt ++ more) ≡ dispatch l cmd pkt
unfolding dispatch read_len
dispatch-append l cmd pkt more h = ground (
  arith,
  setblock-append l pkt more,
  posn-append l pkt more,
  message-append l pkt more,
  extinfo-append l pkt more,
  extentry-append l pkt more,
  custblock-append l pkt more,
  click-append l pkt more,
  pingpong-append l pkt more,
  plugin-append l pkt more,
)
