-- ===== src/Chat/Bytewise.antt =====
-- The byte that a round of the loop of `post_chat` puts in the line.
use mcchost.Base.{
  ℕ, ◌+◌, ◌≤◌, ◌<◌, ◌≡◌, ◌∙◌, refl, sym, subst, Bool, true, false, not, ◌&&◌, ◌||◌, [], ◌∷◌, leb,
  ltb, ◌==◌, if◌then◌else◌, length, arith, Bool-cases, inl, inr, ◌⊎◌, length-append,
}
use mcchost.Chat.Wrap.{Wrapping, put_gt, put_byte, put_char, is_colour_now}
use mcchost.Chat.Stages.{AreFull, IsSpace, IsFitted}

-- The same after the byte.
pub record IsPut (base at : ℕ) (l : Wrapping) : Type 0 where
  pub short : length l.line ≤ 64
  pub from : base ≤ l.s
  pub gt : l.add_gt ≡ true → length l.line ≡ 64
  pub full : AreFull l.sent
  pub on : l.broken ≡ false
  pub space_in : (length l.line ≡ 64) ⊎ IsSpace base l.s l.space
  pub same : (length l.line ≡ 64) ⊎ (l.s ≡ at)

-- What the prompt and the byte leave of a line.
record IsLonger (k : ℕ) (l r : Wrapping) : Type 0 where
  longer : length r.line ≤ length l.line + k
  same_s : r.s ≡ l.s
  same_space : r.space ≡ l.space
  same_sent : r.sent ≡ l.sent
  same_on : r.broken ≡ l.broken

put_gt-IsLonger : (l : Wrapping) → IsLonger (if l.add_gt then 4 else 0) l (put_gt l)
unfolding put_gt
put_gt-IsLonger l = elim (Bool-cases l.add_gt) [
  | inr other ↦ rw other (record {
    longer = omega arith;
    same_s = refl;
    same_space = refl;
    same_sent = refl;
    same_on = refl;
  })
  | inl gt ↦ elim (Bool-cases (is_colour_now l.colour b'f')) [
    | inl white ↦
        rw (gt, white)
          (record {
            longer = omega (arith, length-append l.line (b'>' ∷ b' ' ∷ []));
            same_s = refl;
            same_space = refl;
            same_sent = refl;
            same_on = refl;
          })
    | inr other ↦
        rw (gt, other)
          (record {
            longer = omega (arith, length-append l.line (b'&' ∷ b'f' ∷ b'>' ∷ b' ' ∷ []));
            same_s = refl;
            same_space = refl;
            same_sent = refl;
            same_on = refl;
          })
  ]
]

put_gt-add_gt : (l : Wrapping) → (put_gt l).add_gt ≡ false
unfolding put_gt
put_gt-add_gt l = ground arith

put_byte-IsLonger :
    (c needs : ℕ) (eatsp : Bool) (l : Wrapping)
    → (needs ≡ 1) ⊎ (needs ≡ 3)
    → IsLonger needs l (put_byte c needs eatsp l)
unfolding put_byte
put_byte-IsLonger c needs eatsp l few =
    elim (Bool-cases (ltb 1 needs && not (is_colour_now l.colour l.ncolour))) [
      | inl changed ↦ rw changed (record {
        longer = ground (arith, length-append l.line (b'&' ∷ l.ncolour ∷ c ∷ []), few, changed);
        same_s = refl;
        same_space = refl;
        same_sent = refl;
        same_on = refl;
      })
      | inr same ↦ elim (Bool-cases (not eatsp || not (c == b' '))) [
        | inl shows ↦
            rw (same, shows)
              (record {
                longer = ground (arith, length-append l.line (c ∷ []), few);
                same_s = refl;
                same_space = refl;
                same_sent = refl;
                same_on = refl;
              })
        | inr eaten ↦
            rw (same, eaten)
              (record {
                longer = omega arith;
                same_s = refl;
                same_space = refl;
                same_sent = refl;
                same_on = refl;
              })
      ]
    ]

put_byte-add_gt :
    (c needs : ℕ) (eatsp : Bool) (l : Wrapping) → (put_byte c needs eatsp l).add_gt ≡ l.add_gt
unfolding put_byte
put_byte-add_gt c needs eatsp l = ground arith

pub put_char-IsPut :
    (base at c needs : ℕ) (l : Wrapping)
    → (needs ≡ 1) ⊎ (needs ≡ 3)
    → IsFitted base at needs l
    → IsPut base at (put_char c needs l)
unfolding put_char
put_char-IsPut base at c needs l few h = elim (Bool-cases (leb 64 (length l.line))) [
  | inl done ↦
      let late : (length l.line ≡ 64) × (base < l.s) = ground (arith, h.room, few, done) in
      rw done (record {
        short = omega (arith, late.0);
        from = omega (arith, late.1);
        gt = λ g. late.0;
        full = h.full;
        on = h.on;
        space_in = inl late.0;
        same = inl late.0;
      })
  | inr more ↦
      let g = put_gt l in
      let r = put_byte c needs l.add_gt g in
      let one = put_gt-IsLonger l in
      let two = put_byte-IsLonger c needs l.add_gt g few in
      let s : r.s ≡ l.s = two.same_s ∙ one.same_s in
      let space : r.space ≡ l.space = two.same_space ∙ one.same_space in
      let shut : r.add_gt ≡ false = put_byte-add_gt c needs l.add_gt g ∙ put_gt-add_gt l in
      rw more (record {
        short = ground (arith, two.longer, one.longer, h.room, h.gt, few, more);
        from = omega (arith, s, h.from);
        gt = λ e. ground (arith, e, shut);
        full = subst AreFull (sym (two.same_sent ∙ one.same_sent)) h.full;
        on = two.same_on ∙ one.same_on ∙ h.on;
        space_in = inr (space_here r s space (ground (arith, h.space_in, more)));
        same = inr (s ∙ ground (arith, h.same, more));
      })
]
  where
    space_here :
        (r : Wrapping)
        → r.s ≡ l.s
        → r.space ≡ l.space
        → IsSpace base l.s l.space
        → IsSpace base r.s r.space
    space_here r s space i =
        subst (λ k. IsSpace base k r.space) (sym s) (subst (λ o. IsSpace base l.s o) (sym space) i)
