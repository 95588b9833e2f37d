-- ===== src/Convert.antt =====
-- Block numbers on their way to a client, of send_map_file.c: `block_convert`, `f_block_convert` and
-- their tables.
use mcchost.Base.{
  ℕ, zero, suc, ◌+◌, ◌-◌, Bool, true, false, not, ◌&&◌, ◌||◌, List, [], ◌∷◌, ltb, leb, ◌==◌,
  if◌then◌else◌, get_or,
}
pub mod Bounds

-- `fallback` is what the block is defined to be shown as where it is not known.
pub record Known : Type 0 where
  pub defined : Bool
  pub fallback : ℕ

-- The globals that the conversion reads; `tex16_def` is whether a block needs wide texture numbers.
pub record Limits : Type 0 where
  pub level_block_limit : ℕ
  pub client_block_limit : ℕ
  pub classic_limit_blocks : Bool
  pub customblock_enabled : Bool
  pub extn_blockdefn : Bool
  pub extn_extendtexno : Bool
  pub tex16_def : ℕ → Bool
  pub blockdef : ℕ → Known

abbrev cpe_conversion : List ℕ
cpe_conversion =
    0x2C ∷ 0x27 ∷ 0x0C ∷ 0x00 ∷ 0x0A ∷ 0x21 ∷ 0x19 ∷ 0x03 ∷ 0x1d ∷ 0x1c ∷ 0x14 ∷ 0x2a ∷ 0x31 ∷ 0x24
    ∷ 0x05 ∷ 0x01 ∷ []

-- From `Block_Sponge` to `Block_Obsidian`.
abbrev proto_conversion : List ℕ
proto_conversion =
    14 ∷ 18 ∷ 1 ∷ 1 ∷ 1 ∷ 1 ∷ 1 ∷ 1 ∷ 1 ∷ 1 ∷ 1 ∷ 1 ∷ 1 ∷ 1 ∷ 1 ∷ 1 ∷ 1 ∷ 1 ∷ 6 ∷ 6 ∷ 6 ∷ 6 ∷ 19 ∷ 1
    ∷ 35 ∷ 35 ∷ 21 ∷ 21 ∷ 5 ∷ 4 ∷ 34 ∷ []

module _ (g : Limits) where
  -- Why a block is to be replaced: not at all, because of its number, or because of its textures.
  unfoldable pub why_fallback : ℕ → ℕ
  why_fallback b =
      if g.classic_limit_blocks && leb 50 b
      then 1
      else if leb g.client_block_limit b
      then 1
      else if not g.extn_blockdefn
      then 1
      else if not g.extn_extendtexno && g.tex16_def b
      then 2
      else 0

  -- The `do` loop, of which `n` rounds are left.
  unfoldable pub follow_fallback : ℕ → ℕ → ℕ
  unfolding why_fallback
  follow_fallback zero b = b
  follow_fallback (suc n) b =
      let why = why_fallback b in
      let r = (g.blockdef b).fallback in
      let next = follow_fallback n r in
      if why == 0
      then b
      else if r == b || leb 1024 r
      then (if leb 66 b then 7 else b)
      else if ltb r g.client_block_limit && ltb why 2 && not g.classic_limit_blocks
      then r
      else if (g.blockdef r).defined
      then next
      else r

  unfoldable pub cpe_convert : ℕ → ℕ
  cpe_convert b = if leb 50 b && ltb b 66 then get_or cpe_conversion (b - 50) 0 else b

  unfoldable pub proto_convert : ℕ → ℕ
  proto_convert b = if leb 19 b && leb b 49 then get_or proto_conversion (b - 19) 0 else b

  -- The three looks at the limit at the end.
  unfoldable pub first_known : ℕ → ℕ
  unfolding proto_convert
  first_known b =
      let older = proto_convert b in
      let oldest = proto_convert older in
      if ltb b g.client_block_limit
      then b
      else if ltb older g.client_block_limit
      then older
      else if ltb oldest g.client_block_limit
      then oldest
      else 7

  -- The replacements by definition and by extension.
  unfoldable pub shown_as : ℕ → ℕ
  unfolding follow_fallback cpe_convert
  shown_as b =
      let shown = if (g.blockdef b).defined then follow_fallback 4 b else b in
      let classic = if g.classic_limit_blocks then cpe_convert shown else shown in
      if not g.customblock_enabled && (not g.extn_blockdefn || not (g.blockdef classic).defined)
      then cpe_convert classic
      else classic

  unfoldable pub f_block_convert : ℕ → ℕ
  f_block_convert b =
      if ltb b g.level_block_limit then b else if leb 1024 b then 7 else first_known (shown_as b)

  unfoldable pub block_convert : ℕ → ℕ
  block_convert b = if ltb b g.level_block_limit then b else f_block_convert b
