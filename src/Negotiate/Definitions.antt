-- ===== src/Negotiate/Definitions.antt =====
-- `send_block_definitions`: how far block numbers of a level go to the client as they are.
use mcchost.Base.{ℕ, zero, suc, Bool, not, ◌&&◌, ◌||◌, ltb, if◌then◌else◌}
use mcchost.Negotiate.Entries.{Negotiation}

-- `level_prop`: what it says of the blocks. Without a level no block is `is_defined`.
pub record Definitions : Type 0 where
  pub is_defined : ℕ → Bool
  -- One of the six textures is above 255.
  pub has_high_texture : ℕ → Bool

module _ (l : Definitions) where
  -- The first block from `b` on that the level defines, `k` blocks far at most.
  unfoldable pub first_defined : ℕ → ℕ → ℕ
  first_defined zero b = b
  first_defined (suc k) b = let next = first_defined k (suc b) in if l.is_defined b then b else next

  -- The limit below the first block with a texture above 255, from `b` on, `k` blocks far.
  unfoldable pub below_high : ℕ → ℕ → ℕ → ℕ
  below_high zero b limit = limit
  below_high (suc k) b limit =
      below_high k (suc b)
        (if l.is_defined b && l.has_high_texture b && ltb b limit then b else limit)

  -- The limit for a client that knows no definitions.
  unfoldable pub plain_limit : Bool → ℕ → ℕ
  plain_limit customblock_enabled limit =
      first_defined (if ltb 50 limit && not customblock_enabled then 50 else limit) 0

  unfoldable pub definitions_limit : Bool → Negotiation → Negotiation
  definitions_limit extn_extendtexno n =
      let defines = n.flags.extn_blockdefn in
      let begun =
        if not defines || not n.customblock_enabled
        then plain_limit n.customblock_enabled n.client_block_limit
        else n.level_block_limit in
      record n {
        level_block_limit =
            if not defines || extn_extendtexno
            then begun
            else below_high n.client_block_limit 0 begun;
      }
