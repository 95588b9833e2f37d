-- ===== src/Packet/SentLen.antt =====
-- `sent_len` for each packet, as the sum of its fields.
use mcchost.Base.{
  Bool, true, false, suc, length, [], ◌∷◌, Option, none, some, ◌+◌, ◌*◌, ◌≡◌, leb, if◌then◌else◌,
  arith,
}
use mcchost.Packet.Encode.{Bytes, lengths}
use mcchost.Packet.Config.{Config, msglen, extended_msglen, login_msglen, sent_len}

pub sent_len_00 :
    (cfg : Config) → sent_len cfg 0x00 ≡ (if leb 6 cfg.protocol_base_version then 131 else 130)
unfolding sent_len extended_msglen login_msglen msglen
sent_len_00 cfg = ground arith

pub sent_len_01 : (cfg : Config) → sent_len cfg 0x01 ≡ 1
unfolding sent_len extended_msglen login_msglen msglen
sent_len_01 cfg = ground arith

pub sent_len_02 : (cfg : Config) → sent_len cfg 0x02 ≡ 1 + (if cfg.extn_fastmap then 4 else 0)
unfolding sent_len extended_msglen login_msglen msglen
sent_len_02 cfg = ground arith

pub sent_len_03 : (cfg : Config) → sent_len cfg 0x03 ≡ 1028
unfolding sent_len extended_msglen login_msglen msglen
sent_len_03 cfg = ground arith

pub sent_len_04 : (cfg : Config) → sent_len cfg 0x04 ≡ 7
unfolding sent_len extended_msglen login_msglen msglen
sent_len_04 cfg = ground arith

pub sent_len_06 : (cfg : Config) → sent_len cfg 0x06 ≡ 7 + (if cfg.extn_extendblockno then 2 else 1)
unfolding sent_len extended_msglen login_msglen msglen
sent_len_06 cfg = ground arith

pub sent_len_07 :
    (cfg : Config) → sent_len cfg 0x07 ≡ 68 + 3 * (if cfg.extn_extentityposn then 4 else 2)
unfolding sent_len extended_msglen login_msglen msglen
sent_len_07 cfg = ground arith

pub sent_len_08 :
    (cfg : Config) → sent_len cfg 0x08 ≡ 4 + 3 * (if cfg.extn_extentityposn then 4 else 2)
unfolding sent_len extended_msglen login_msglen msglen
sent_len_08 cfg = ground arith

pub sent_len_09 : (cfg : Config) → sent_len cfg 0x09 ≡ 7
unfolding sent_len extended_msglen login_msglen msglen
sent_len_09 cfg = ground arith

pub sent_len_0a : (cfg : Config) → sent_len cfg 0x0a ≡ 5
unfolding sent_len extended_msglen login_msglen msglen
sent_len_0a cfg = ground arith

pub sent_len_0b : (cfg : Config) → sent_len cfg 0x0b ≡ 4
unfolding sent_len extended_msglen login_msglen msglen
sent_len_0b cfg = ground arith

pub sent_len_0c : (cfg : Config) → sent_len cfg 0x0c ≡ 2
unfolding sent_len extended_msglen login_msglen msglen
sent_len_0c cfg = ground arith

pub sent_len_0d : (cfg : Config) → sent_len cfg 0x0d ≡ 66
unfolding sent_len extended_msglen login_msglen msglen
sent_len_0d cfg = ground arith

pub sent_len_0e : (cfg : Config) → sent_len cfg 0x0e ≡ 65
unfolding sent_len extended_msglen login_msglen msglen
sent_len_0e cfg = ground arith

pub sent_len_0f : (cfg : Config) → sent_len cfg 0x0f ≡ 2
unfolding sent_len extended_msglen login_msglen msglen
sent_len_0f cfg = ground arith

pub sent_len_10 : (cfg : Config) → sent_len cfg 0x10 ≡ 67
unfolding sent_len extended_msglen login_msglen msglen
sent_len_10 cfg = ground arith

pub sent_len_11 : (cfg : Config) → sent_len cfg 0x11 ≡ 69
unfolding sent_len extended_msglen login_msglen msglen
sent_len_11 cfg = ground arith

pub sent_len_12 : (cfg : Config) → sent_len cfg 0x12 ≡ 3
unfolding sent_len extended_msglen login_msglen msglen
sent_len_12 cfg = ground arith

pub sent_len_13 : (cfg : Config) → sent_len cfg 0x13 ≡ 2
unfolding sent_len extended_msglen login_msglen msglen
sent_len_13 cfg = ground arith

pub sent_len_14 : (cfg : Config) → sent_len cfg 0x14 ≡ 2 + (if cfg.extn_extendblockno then 2 else 1)
unfolding sent_len extended_msglen login_msglen msglen
sent_len_14 cfg = ground arith

pub sent_len_16 : (cfg : Config) → sent_len cfg 0x16 ≡ 196
unfolding sent_len extended_msglen login_msglen msglen
sent_len_16 cfg = ground arith

pub sent_len_18 : (cfg : Config) → sent_len cfg 0x18 ≡ 3
unfolding sent_len extended_msglen login_msglen msglen
sent_len_18 cfg = ground arith

pub sent_len_19 : (cfg : Config) → sent_len cfg 0x19 ≡ 8
unfolding sent_len extended_msglen login_msglen msglen
sent_len_19 cfg = ground arith

pub sent_len_1a : (cfg : Config) → sent_len cfg 0x1a ≡ 86
unfolding sent_len extended_msglen login_msglen msglen
sent_len_1a cfg = ground arith

pub sent_len_1b : (cfg : Config) → sent_len cfg 0x1b ≡ 2
unfolding sent_len extended_msglen login_msglen msglen
sent_len_1b cfg = ground arith

pub sent_len_1c : (cfg : Config) → sent_len cfg 0x1c ≡ 3 + (if cfg.extn_extendblockno then 2 else 1)
unfolding sent_len extended_msglen login_msglen msglen
sent_len_1c cfg = ground arith

pub sent_len_1d : (cfg : Config) → sent_len cfg 0x1d ≡ 66
unfolding sent_len extended_msglen login_msglen msglen
sent_len_1d cfg = ground arith

pub sent_len_1e :
    (cfg : Config)
    → sent_len cfg 0x1e
      ≡ 67
        + 2 * (if cfg.extn_extendblockno then 2 else 1)
        + (if cfg.extn_envmapappearance2 then 4 else 0)
unfolding sent_len extended_msglen login_msglen msglen
sent_len_1e cfg = ground arith

pub sent_len_1f : (cfg : Config) → sent_len cfg 0x1f ≡ 2
unfolding sent_len extended_msglen login_msglen msglen
sent_len_1f cfg = ground arith

pub sent_len_20 : (cfg : Config) → sent_len cfg 0x20 ≡ 8
unfolding sent_len extended_msglen login_msglen msglen
sent_len_20 cfg = ground arith

pub sent_len_21 :
    (cfg : Config) → sent_len cfg 0x21 ≡ 132 + 3 * (if cfg.extn_extentityposn then 4 else 2)
unfolding sent_len extended_msglen login_msglen msglen
sent_len_21 cfg = ground arith

pub sent_len_23 :
    (cfg : Config)
    → sent_len cfg 0x23
      ≡ 76 + (if cfg.extn_extendblockno then 2 else 1) + 3 * (if cfg.extn_extendtexno then 2 else 1)
unfolding sent_len extended_msglen login_msglen msglen
sent_len_23 cfg = ground arith

pub sent_len_24 : (cfg : Config) → sent_len cfg 0x24 ≡ 1 + (if cfg.extn_extendblockno then 2 else 1)
unfolding sent_len extended_msglen login_msglen msglen
sent_len_24 cfg = ground arith

pub sent_len_25 :
    (cfg : Config)
    → sent_len cfg 0x25
      ≡ 81 + (if cfg.extn_extendblockno then 2 else 1) + 6 * (if cfg.extn_extendtexno then 2 else 1)
unfolding sent_len extended_msglen login_msglen msglen
sent_len_25 cfg = ground arith

pub sent_len_27 : (cfg : Config) → sent_len cfg 0x27 ≡ 6
unfolding sent_len extended_msglen login_msglen msglen
sent_len_27 cfg = ground arith

pub sent_len_28 : (cfg : Config) → sent_len cfg 0x28 ≡ 65
unfolding sent_len extended_msglen login_msglen msglen
sent_len_28 cfg = ground arith

pub sent_len_29 : (cfg : Config) → sent_len cfg 0x29 ≡ 6
unfolding sent_len extended_msglen login_msglen msglen
sent_len_29 cfg = ground arith

pub sent_len_2b : (cfg : Config) → sent_len cfg 0x2b ≡ 4
unfolding sent_len extended_msglen login_msglen msglen
sent_len_2b cfg = ground arith

pub sent_len_2c :
    (cfg : Config) → sent_len cfg 0x2c ≡ 1 + 2 * (if cfg.extn_extendblockno then 2 else 1)
unfolding sent_len extended_msglen login_msglen msglen
sent_len_2c cfg = ground arith

pub sent_len_2d : (cfg : Config) → sent_len cfg 0x2d ≡ 2 + (if cfg.extn_extendblockno then 2 else 1)
unfolding sent_len extended_msglen login_msglen msglen
sent_len_2d cfg = ground arith

pub sent_len_2e :
    (cfg : Config) → sent_len cfg 0x2e ≡ 3 + 3 * (if cfg.extn_extentityposn then 4 else 2)
unfolding sent_len extended_msglen login_msglen msglen
sent_len_2e cfg = ground arith

pub ruleset sent_lens = (
  sent_len_00, sent_len_01, sent_len_02, sent_len_03, sent_len_04, sent_len_06, sent_len_07,
  sent_len_08, sent_len_09, sent_len_0a, sent_len_0b, sent_len_0c, sent_len_0d, sent_len_0e,
  sent_len_0f, sent_len_10, sent_len_11, sent_len_12, sent_len_13, sent_len_14, sent_len_16,
  sent_len_18, sent_len_19, sent_len_1a, sent_len_1b, sent_len_1c, sent_len_1d, sent_len_1e,
  sent_len_1f, sent_len_20, sent_len_21, sent_len_23, sent_len_24, sent_len_25, sent_len_27,
  sent_len_28, sent_len_29, sent_len_2b, sent_len_2c, sent_len_2d, sent_len_2e,
)

-- Nothing, or a packet of the length that goes with its first byte.
abbrev pub HasLength : Config → Option Bytes → Type 0
HasLength cfg none = Unit
HasLength cfg (some []) = ⊥
HasLength cfg (some (id ∷ bytes)) = suc (length bytes) ≡ sent_len cfg id

pub if-HasLength :
    (cfg : Config) (b : Bool) (x y : Option Bytes)
    → HasLength cfg x
    → HasLength cfg y
    → HasLength cfg (if b then x else y)
if-HasLength cfg true x y h k = h
if-HasLength cfg false x y h k = k

pub ruleset all_lengths = (lengths, sent_lens)
