-- ===== src/Packet/Encode.antt =====
-- The `nb_*` writers at the end of send_packet.c. What C writes at `p` and steps over is returned as a
-- list of bytes; an `int` is cut to its low bits.
use mcchost.Base.{
  ℕ, ◌+◌, ◌/◌, ◌%◌, ◌^◌, ◌≡◌, refl, Bool, List, [], ◌∷◌, ◌++◌, arith, ltb, if◌then◌else◌, shr, u8,
  length,
}
use mcchost.Base.Int.{ℤ, pos, negsuc, ltb_ℤ, word32}
use mcchost.Packet.Config.{Config}

abbrev pub Bytes : Type 0
Bytes = List ℕ

-- `*p++ = v`.
unfoldable pub byte : ℤ → ℕ
byte v = u8 (word32 v)

unfoldable pub nb_short : ℤ → Bytes
nb_short v = u8 (shr (word32 v) 8) ∷ u8 (word32 v) ∷ []

unfoldable pub clamp_short : ℤ → ℤ
clamp_short v =
    if ltb_ℤ (pos 32767) v then pos 32767 else if ltb_ℤ v (negsuc 32767) then negsuc 32767 else v

unfoldable pub nb_short_clamp : ℤ → Bytes
unfolding clamp_short nb_short
nb_short_clamp v = nb_short (clamp_short v)

unfoldable pub nb_short_dflt : ℤ → ℤ → Bytes
unfolding nb_short
nb_short_dflt v def =
    nb_short (if ltb_ℤ (pos 32767) v then def else if ltb_ℤ v (negsuc 32767) then def else v)

unfoldable pub nb_int : ℤ → Bytes
nb_int v =
    u8 (shr (word32 v) 24) ∷ u8 (shr (word32 v) 16) ∷ u8 (shr (word32 v) 8) ∷ u8 (word32 v) ∷ []

abbrev pub cpelimitlo : ℕ
cpelimitlo = 256

unfoldable pub nb_block_t : Config → ℕ → Bytes
unfolding nb_short
nb_block_t cfg block =
    if cfg.extn_extendblockno
    then nb_short (pos block)
    else (if ltb block cpelimitlo then block else 0) ∷ []

unfoldable pub nb_texid : Config → ℕ → Bytes
unfolding nb_short
nb_texid cfg texid = if cfg.extn_extendtexno then nb_short (pos texid) else u8 texid ∷ []

unfoldable pub nb_entcoord : Config → ℤ → Bytes
unfolding nb_int nb_short_clamp
nb_entcoord cfg v = if cfg.extn_extentityposn then nb_int v else nb_short_clamp v

-- The number of bytes that each writes.
pub length-nb_short : (v : ℤ) → length (nb_short v) ≡ 2
unfolding nb_short
length-nb_short v = refl

pub length-nb_short_dflt : (v d : ℤ) → length (nb_short_dflt v d) ≡ 2
unfolding nb_short_dflt
length-nb_short_dflt v d = refl

pub length-nb_int : (v : ℤ) → length (nb_int v) ≡ 4
unfolding nb_int
length-nb_int v = refl

pub length-nb_block_t :
    (cfg : Config) (b : ℕ) → length (nb_block_t cfg b) ≡ (if cfg.extn_extendblockno then 2 else 1)
unfolding nb_block_t
length-nb_block_t cfg b = ground arith

pub length-nb_texid :
    (cfg : Config) (t : ℕ) → length (nb_texid cfg t) ≡ (if cfg.extn_extendtexno then 2 else 1)
unfolding nb_texid
length-nb_texid cfg t = ground arith

pub length-nb_entcoord :
    (cfg : Config) (v : ℤ) → length (nb_entcoord cfg v) ≡ (if cfg.extn_extentityposn then 4 else 2)
unfolding nb_entcoord
length-nb_entcoord cfg v = ground arith

pub length_bytes : (xs ys : Bytes) → length (xs ++ ys) ≡ length xs + length ys
length_bytes [] ys = omega arith
length_bytes (x ∷ xs) ys = omega (arith, length_bytes xs ys)

pub ruleset lengths = (
  arith, length_bytes, length-nb_short, length-nb_short_dflt, length-nb_int, length-nb_block_t,
  length-nb_texid, length-nb_entcoord,
)
