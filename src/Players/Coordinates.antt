-- ===== src/Players/Coordinates.antt =====
-- What a client reads in the bytes that `nb_entcoord` writes.
use mcchost.Base.{
  ℕ, ◌+◌, ◌-◌, ◌*◌, ◌%◌, ◌^◌, ◌<◌, ◌≡◌, refl, ltb, ◌++◌, arith, if◌then◌else◌, u8, shr, Bool-cases,
  inl, inr, true, false,
}
use mcchost.Base.Int.{ℤ, pos, negsuc, int32, word32, ltb_ℤ}
use mcchost.Packet.Config.{Config}
use mcchost.Packet.Encode.{Bytes, clamp_short, nb_short, nb_short_clamp, nb_int, nb_entcoord}
use mcchost.Request.Read.{uint_be16, int_be16, int_be32}
use mcchost.Players.View.{read_entcoord}

four_bytes :
    (n : ℕ)
    → n < 2 ^ 32
    → u8 n + u8 (shr n 8) * 2 ^ 8 + u8 (shr n 16) * 2 ^ 16 + u8 (shr n 24) * 2 ^ 24 ≡ n
four_bytes n h = omega (arith, h)

word32_max : (v : ℤ) → word32 v < 2 ^ 32
word32_max (pos n) = omega arith
word32_max (negsuc n) = omega arith

int_be32-nb_int : (v : ℤ) (rest : Bytes) → int_be32 (nb_int v ++ rest) 0 ≡ int32 v
unfolding int_be32 nb_int int32
int_be32-nb_int v rest = rw (four_bytes (word32 v) (word32_max v)) refl

two_bytes : (n : ℕ) → u8 n + u8 (shr n 8) * 256 ≡ n % 2 ^ 16
two_bytes n = omega arith

-- The 16 bits of a number that has been clamped give it back.
abbrev short_of : ℕ → ℤ
short_of m = if ltb m (2 ^ 15) then pos m else negsuc (2 ^ 16 - 1 - m)

short_pos : (n : ℕ) → n < 2 ^ 15 → short_of (word32 (pos n) % 2 ^ 16) ≡ pos n
short_pos n h =
    let same : n % 2 ^ 32 % 2 ^ 16 ≡ n = omega (arith, h) in
    let small : ltb n (2 ^ 15) ≡ true = ground (arith, h) in rw (same, small) refl

short_negsuc : (n : ℕ) → n < 2 ^ 15 → short_of (word32 (negsuc n) % 2 ^ 16) ≡ negsuc n
short_negsuc n h =
    let bits : (2 ^ 32 - 1 - n % 2 ^ 32) % 2 ^ 16 ≡ 2 ^ 16 - 1 - n = omega (arith, h) in
    let large : ltb (2 ^ 16 - 1 - n) (2 ^ 15) ≡ false = ground (arith, h) in
    let back : 2 ^ 16 - 1 - (2 ^ 16 - 1 - n) ≡ n = omega (arith, h) in rw (bits, large, back) refl

short_clamped : (v : ℤ) → short_of (word32 (clamp_short v) % 2 ^ 16) ≡ clamp_short v
unfolding clamp_short
short_clamped (pos n) =
    let above : ltb_ℤ (pos n) (negsuc 32767) ≡ false = ground arith in
    elim (Bool-cases (ltb_ℤ (pos 32767) (pos n))) [
      | inl high ↦ rw high refl
      | inr low ↦ rw (low, above) (short_pos n (ground (arith, low)))
    ]
short_clamped (negsuc n) =
    let below : ltb_ℤ (pos 32767) (negsuc n) ≡ false = ground arith in
    elim (Bool-cases (ltb_ℤ (negsuc n) (negsuc 32767))) [
      | inl low ↦ rw (below, low) refl
      | inr high ↦ rw (below, high) (short_negsuc n (ground (arith, high)))
    ]

int_be16-nb_short_clamp :
    (v : ℤ) (rest : Bytes) → int_be16 (nb_short_clamp v ++ rest) 0 ≡ clamp_short v
unfolding int_be16 uint_be16 nb_short_clamp nb_short
int_be16-nb_short_clamp v rest = rw (two_bytes (word32 (clamp_short v))) (short_clamped v)

-- A client that takes its 4 bytes with ExtEntityPositions, and its 2 bytes without, as a signed number
-- with the highest byte first, reads what `read_entcoord` says.
pub read_entcoord-nb_entcoord :
    (cfg : Config) (v : ℤ) (rest : Bytes)
    → (if cfg.extn_extentityposn
        then int_be32 (nb_entcoord cfg v ++ rest) 0
        else int_be16 (nb_entcoord cfg v ++ rest) 0)
      ≡ read_entcoord cfg v
unfolding nb_entcoord read_entcoord
read_entcoord-nb_entcoord cfg v rest = elim (Bool-cases cfg.extn_extentityposn) [
  | inl wide ↦ rw wide (int_be32-nb_int v rest)
  | inr narrow ↦ rw narrow (int_be16-nb_short_clamp v rest)
]
