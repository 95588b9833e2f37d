-- ===== src/Chat/Stages.antt =====
-- The parts of a round of the loop of `post_chat` up to the byte, and the line they leave.
use mcchost.Base.{
  ℕ, ◌+◌, ◌-◌, ◌≤◌, ◌<◌, ◌≡◌, refl, subst, true, false, not, ◌&&◌, Option, none, some, List, [],
  ◌∷◌, ◌++◌, ltb, ◌==◌, length, take, replicate, get_or, arith, Bool-cases, inl, inr, ◌⊎◌,
  length-append, length-replicate, length-take,
}
use mcchost.Chat.Colour.{Bytes, TextColour}
use mcchost.Chat.Wrap.{Break, Wrapping, pad, wrap_back, wrap, mark_space, needs_of, fit}

abbrev pub AreFull : List Bytes → Type 0
AreFull [] = Unit
AreFull (line ∷ lines) = (length line ≡ 64) × AreFull lines

pub full_append :
    (xs : List Bytes) (line : Bytes) → AreFull xs → length line ≡ 64 → AreFull (xs ++ (line ∷ []))
full_append [] line h e = (e, tt)
full_append (x ∷ xs) line h e = (h.0, full_append xs line h.1 e)

pub length-pad : (line : Bytes) → length line ≤ 64 → length (pad line) ≡ 64
length-pad line h = omega (
  arith,
  length-append line (replicate (64 - length line) b' '),
  length-replicate {A = ℕ} (64 - length line) b' ',
  h,
)

abbrev pub IsSpace : ℕ → ℕ → Option Break → Type 0
IsSpace base s none = Unit
IsSpace base s (some b) = (base ≤ b.ws) × (b.ws ≤ s)

-- `base` is where the line in work began, and `IsBefore` is what holds between `mark_space` and the
-- byte.
pub record IsBefore (base : ℕ) (l : Wrapping) : Type 0 where
  pub short : length l.line ≤ 63
  pub from : base ≤ l.s
  pub start : l.s ≡ base → length l.line ≡ 0
  pub gt : l.add_gt ≡ true → length l.line ≡ 0
  pub full : AreFull l.sent
  pub on : l.broken ≡ false
  pub space_in : IsSpace base l.s l.space

-- The same where a wrapped line has its 64 bytes.
pub record IsFitted (base at needs : ℕ) (l : Wrapping) : Type 0 where
  pub room : (length l.line + needs ≤ 64) ⊎ ((length l.line ≡ 64) × (base < l.s))
  pub from : base ≤ l.s
  pub gt : l.add_gt ≡ true → (length l.line ≡ 0) ⊎ (length l.line ≡ 64)
  pub full : AreFull l.sent
  pub on : l.broken ≡ false
  pub space_in : (length l.line ≡ 64) ⊎ IsSpace base l.s l.space
  pub same : (length l.line ≡ 64) ⊎ (l.s ≡ at)

pub mark_space-IsBefore :
    (c base : ℕ) (l : Wrapping) → IsBefore base l → IsBefore base (mark_space c l)
unfolding mark_space
mark_space-IsBefore c base l h = elim (Bool-cases (c == b' ')) [
  | inr other ↦ rw other h
  | inl blank ↦ rw blank (record {
    short = h.short;
    from = h.from;
    start = h.start;
    gt = h.gt;
    full = h.full;
    on = h.on;
    space_in = (h.from, omega arith);
  })
]

pub mark_space-s : (c : ℕ) (l : Wrapping) → (mark_space c l).s ≡ l.s
unfolding mark_space
mark_space-s c l = ground arith

pub needs_cases : (c : ℕ) (l : Wrapping) → (needs_of c l ≡ 1) ⊎ (needs_of c l ≡ 3)
unfolding needs_of
needs_cases c l = ground arith

wrap_space :
    (base needs : ℕ) (l : Wrapping) (o : Option Break)
    → l.space ≡ o
    → IsBefore base l
    → base < l.s
    → IsFitted base l.s needs (wrap l)
unfolding wrap wrap_back
wrap_space base needs l none e h late = rw e (record {
  room = inr (length-pad l.line (omega (arith, h.short)), late);
  from = h.from;
  gt = λ g. inr (length-pad l.line (omega (arith, h.short)));
  full = h.full;
  on = h.on;
  space_in = inl (length-pad l.line (omega (arith, h.short)));
  same = inl (length-pad l.line (omega (arith, h.short)));
})
wrap_space base needs l (some b) e h late =
    let inside : IsSpace base l.s (some b) = subst (IsSpace base l.s) e h.space_in in
    let short : length (take b.wd l.line) ≤ 64 = omega (arith, length-take b.wd l.line, h.short) in
    rw e (elim (Bool-cases (ltb 0 b.wd)) [
      | inl back ↦ rw back (record {
        room = inr (length-pad (take b.wd l.line) short, omega (arith, inside.0));
        from = omega (arith, inside.0);
        gt = λ g. inr (length-pad (take b.wd l.line) short);
        full = h.full;
        on = h.on;
        space_in = inl (length-pad (take b.wd l.line) short);
        same = inl (length-pad (take b.wd l.line) short);
      })
      | inr first ↦ rw first (record {
        room = inr (length-pad l.line (omega (arith, h.short)), late);
        from = h.from;
        gt = λ g. inr (length-pad l.line (omega (arith, h.short)));
        full = h.full;
        on = h.on;
        space_in = inl (length-pad l.line (omega (arith, h.short)));
        same = inl (length-pad l.line (omega (arith, h.short)));
      })
    ])

module _ (textcolour : ℕ → TextColour) (chat : Bytes) where
  pub fit-IsFitted :
      (base needs : ℕ) (l : Wrapping)
      → needs ≤ 3
      → IsBefore base l
      → IsFitted base l.s needs (fit textcolour chat needs l)
  unfolding fit
  fit-IsFitted base needs l few h =
      let same : length l.line + needs ≤ 64 → IsFitted base l.s needs l = λ fits. record {
        room = inl fits;
        from = h.from;
        gt = λ g. inl (h.gt g);
        full = h.full;
        on = h.on;
        space_in = inr h.space_in;
        same = inr refl;
      } in
      let wrapped : 64 ≤ length l.line + needs → IsFitted base l.s needs (wrap l) = λ long.
        wrap_space base needs l l.space refl h (ground (arith, h.start, h.from, long, few)) in
      elim (Bool-cases (length l.line + needs == 64)) [
        | inl exact ↦
            elim (Bool-cases
              (ltb (l.s + 1) (length chat) && not (get_or chat (l.s + 1) 0 == b' '))) [
                | inl more ↦ rw (exact, more) (wrapped (ground (arith, exact)))
                | inr last ↦ rw (exact, last) (same (ground (arith, exact)))
              ]
        | inr other ↦ elim (Bool-cases (ltb 64 (length l.line + needs))) [
          | inl long ↦ rw (other, long) (wrapped (ground (arith, long)))
          | inr fits ↦ rw (other, fits) (same (ground (arith, fits)))
        ]
      ]
