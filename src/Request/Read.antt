-- ===== src/Request/Read.antt =====
-- The macros of packet.c that read numbers, and the packets of requestloop.c as packet.c declares them.
use mcchost.Base.{ℕ, ◌+◌, ◌-◌, ◌*◌, ◌^◌, ltb, if◌then◌else◌, get_or, take, drop}
use mcchost.Base.Int.{ℤ, pos, negsuc}
use mcchost.Receive.Frame.{Bytes}

-- The value of `w` bits as a signed number.
abbrev pub signed : ℕ → ℕ → ℤ
signed w n = if ltb n (2 ^ (w - 1)) then pos n else negsuc (2 ^ w - 1 - n)

-- A byte of the packet, as `uint8_t` and as `char`.
abbrev pub byte_at : Bytes → ℕ → ℕ
byte_at pkt i = get_or pkt i 0

abbrev pub char_at : Bytes → ℕ → ℤ
char_at pkt i = signed 8 (byte_at pkt i)

unfoldable pub uint_be16 : Bytes → ℕ → ℕ
uint_be16 pkt i = byte_at pkt (i + 1) + byte_at pkt i * 256

unfoldable pub int_be16 : Bytes → ℕ → ℤ
unfolding uint_be16
int_be16 pkt i = signed 16 (uint_be16 pkt i)

unfoldable pub int_be32 : Bytes → ℕ → ℤ
int_be32 pkt i = signed 32 (
    byte_at pkt (i + 3)
    + byte_at pkt (i + 2) * 2 ^ 8
    + byte_at pkt (i + 1) * 2 ^ 16
    + byte_at pkt i * 2 ^ 24)

-- The 64 bytes of a text field.
abbrev pub field_at : Bytes → ℕ → Bytes
field_at pkt i = take 64 (drop i pkt)

-- `pkt_setblock`.
pub record SetBlock : Type 0 where
  pub x : ℤ
  pub y : ℤ
  pub z : ℤ
  pub mode : ℤ
  pub block : ℕ
  pub heldblock : ℕ

-- `pkt_player_posn`.
pub record PlayerPosn : Type 0 where
  pub player_id : ℕ
  pub held_block : ℕ
  pub x : ℤ
  pub y : ℤ
  pub z : ℤ
  pub h : ℤ
  pub v : ℤ

-- `pkt_playerclick`.
pub record PlayerClick : Type 0 where
  pub button : ℕ
  pub action : ℕ
  pub h : ℤ
  pub v : ℤ
  pub entity : ℤ
  pub block_x : ℤ
  pub block_y : ℤ
  pub block_z : ℤ
  pub face : ℕ
