-- ===== src/Convert/Bounds.antt =====
-- What a client gets of a block number.
use mcchost.Base.{
  u8, shr, ◌%◌, ◌^◌, ℕ, ◌+◌, ◌*◌, ◌<◌, ◌≤◌, arith, ◌≡◌, Bool-cases, inl, inr, if◌then◌else◌,
}
use mcchost.Packet.Config.{Config}
use mcchost.Packet.Encode.{nb_block_t, nb_short}
use mcchost.Request.Read.{uint_be16, byte_at}
use mcchost.Receive.Frame.{Bytes}
use mcchost.Convert.{Limits, first_known, shown_as, f_block_convert, block_convert}

first_known_bound :
    (g : Limits) (b : ℕ) → 8 ≤ g.client_block_limit → first_known g b < g.client_block_limit
unfolding first_known
first_known_bound g b enough = ground (arith, enough)

-- Whatever the block, its definition and the extensions are: the client gets a number below its
-- limit, where the level's limit is no higher and the limit leaves room for bedrock.
pub block_convert_bound :
    (g : Limits) (b : ℕ)
    → g.level_block_limit ≤ g.client_block_limit
    → 8 ≤ g.client_block_limit
    → block_convert g b < g.client_block_limit
unfolding block_convert f_block_convert
block_convert_bound g b le enough =
    ground (arith, le, enough, first_known_bound g (shown_as g b) enough)

-- The block number that a client reads.
abbrev pub block_read : Config → Bytes → ℕ
block_read cfg bs = if cfg.extn_extendblockno then uint_be16 bs 0 else byte_at bs 0

wide_number : (n : ℕ) → n < 1024 → u8 (n % 2 ^ 32) + u8 (shr (n % 2 ^ 32) 8) * 256 ≡ n
wide_number n h = omega arith

-- From every packet that carries a block number the client reads the number that the conversion
-- gave, with one byte or with two, where its limit is what its extensions allow: no number is cut.
pub block_read-nb_block_t :
    (cfg : Config) (g : Limits) (b : ℕ)
    → g.level_block_limit ≤ g.client_block_limit
    → 8 ≤ g.client_block_limit
    → g.client_block_limit ≤ (if cfg.extn_extendblockno then 1024 else 256)
    → block_read cfg (nb_block_t cfg (block_convert g b)) ≡ block_convert g b
unfolding nb_block_t nb_short uint_be16
block_read-nb_block_t cfg g b le enough most =
    let bound = block_convert_bound g b le enough in
    elim (Bool-cases cfg.extn_extendblockno) [
      | inl wide ↦ rw wide (wide_number (block_convert g b) (ground (arith, bound, most, wide)))
      | inr narrow ↦ rw narrow (ground (arith, bound, most, narrow))
    ]
