-- ===== src/Chat/ColourLaws.antt =====
-- After `revert_amp_to_perc` every `&` starts a colour.
use mcchost.Base.{
  ℕ, suc, ◌≡◌, refl, ap, true, false, [], ◌∷◌, ◌==◌, if◌then◌else◌, length, arith, Bool-cases, inl,
  inr,
}
use mcchost.Chat.Colour.{Bytes, TextColour, is_mark, colour_of, names_colour, revert_amp_to_perc}

module _ (textcolour : ℕ → TextColour) where
  -- Every `&` has a colour behind it, and no other text begins inside one.
  abbrev pub IsColoured : Bytes → Type 0
  IsColoured [] = Unit
  IsColoured (p ∷ []) = (p == b'&') ≡ false
  IsColoured (p ∷ c ∷ msg) =
      if p == b'&'
      then (names_colour textcolour c ≡ true) × IsColoured msg
      else IsColoured (c ∷ msg)

  length-revert_amp_to_perc :
      (msg : Bytes) → length (revert_amp_to_perc textcolour msg) ≡ length msg
  unfolding revert_amp_to_perc
  length-revert_amp_to_perc [] = refl
  length-revert_amp_to_perc (p ∷ []) = refl
  length-revert_amp_to_perc (p ∷ c ∷ msg) =
      let behind = length-revert_amp_to_perc msg in
      let next = length-revert_amp_to_perc (c ∷ msg) in
      elim (Bool-cases (is_mark p)) [
        | inr plain ↦ rw plain (ap suc next)
        | inl mark ↦ elim (Bool-cases (names_colour textcolour c)) [
          | inl colour ↦ rw (mark, colour) (ap (λ n. suc (suc n)) behind)
          | inr other ↦ rw (mark, other) (ap suc next)
        ]
      ]

  cons-IsColoured :
      (p : ℕ) (msg : Bytes) → (p == b'&') ≡ false → IsColoured msg → IsColoured (p ∷ msg)
  cons-IsColoured p [] h k = h
  cons-IsColoured p (c ∷ msg) h k = rw h k

  -- A colour without a value of its own falls back to one that is a colour.
  abbrev pub HasFallbacks : Type 0
  HasFallbacks =
      (c : ℕ)
      → names_colour textcolour c ≡ true
      → names_colour textcolour (colour_of textcolour c) ≡ true

  -- After it every `&` has a colour behind it, where the fallbacks of colours are colours.
  pub revert_amp_to_perc-IsColoured :
      (msg : Bytes) → HasFallbacks → IsColoured (revert_amp_to_perc textcolour msg)
  unfolding revert_amp_to_perc
  revert_amp_to_perc-IsColoured [] h = tt
  revert_amp_to_perc-IsColoured (p ∷ []) h = ground arith
  revert_amp_to_perc-IsColoured (p ∷ c ∷ msg) h =
      let behind = revert_amp_to_perc-IsColoured msg h in
      let next = revert_amp_to_perc-IsColoured (c ∷ msg) h in
      elim (Bool-cases (is_mark p)) [
        | inr plain ↦ rw plain (
            cons-IsColoured p (revert_amp_to_perc textcolour (c ∷ msg)) (ground (arith, plain))
              next)
        | inl mark ↦ elim (Bool-cases (names_colour textcolour c)) [
          | inl colour ↦ rw (mark, colour) (h c colour, behind)
          | inr other ↦
              rw (mark, other)
                (cons-IsColoured b'%' (revert_amp_to_perc textcolour (c ∷ msg)) refl next)
        ]
      ]
