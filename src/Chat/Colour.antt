-- ===== src/Chat/Colour.antt =====
-- `revert_amp_to_perc`: which marks in a text start a colour.
use mcchost.Base.{ℕ, Bool, not, ◌&&◌, ◌||◌, List, [], ◌∷◌, leb, ◌==◌, if◌then◌else◌}

abbrev pub Bytes : Type 0
Bytes = List ℕ

-- An entry of `textcolour`; `is_negative` is a colour below 0, which only has a fallback.
pub record TextColour : Type 0 where
  pub defined : Bool
  pub is_negative : Bool
  pub fallback : ℕ

unfoldable pub is_digit : ℕ → Bool
is_digit c = (leb b'0' c && leb c b'9') || (leb b'a' c && leb c b'f')

abbrev pub is_mark : ℕ → Bool
is_mark c = c == b'%' || c == b'&'

module _ (textcolour : ℕ → TextColour) where
  -- The colour that the byte behind a mark stands for.
  unfoldable pub colour_of : ℕ → ℕ
  unfolding is_digit
  colour_of c =
      if not (is_digit c) && (textcolour c).is_negative then (textcolour c).fallback else c

  unfoldable pub names_colour : ℕ → Bool
  unfolding is_digit
  names_colour c = is_digit c || (not (c == 0) && (textcolour c).defined)

  unfoldable pub revert_amp_to_perc : Bytes → Bytes
  unfolding colour_of names_colour
  revert_amp_to_perc [] = []
  revert_amp_to_perc (p ∷ []) = (if is_mark p then b'%' else p) ∷ []
  revert_amp_to_perc (p ∷ c ∷ msg) =
      let behind = revert_amp_to_perc msg in
      let next = revert_amp_to_perc (c ∷ msg) in
      if not (is_mark p)
      then p ∷ next
      else if names_colour c
      then b'&' ∷ colour_of c ∷ behind
      else b'%' ∷ next
