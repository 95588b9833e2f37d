-- ===== src/Chat/WrapLaws.antt =====
-- The messages of the loop of `post_chat`: it ends, and each of them has 64 bytes.
use mcchost.Base.{
  ℕ, zero, suc, ◌+◌, ◌-◌, ◌*◌, ◌≤◌, ◌<◌, ◌≡◌, refl, subst, Bool, true, false, not, ◌&&◌, ◌||◌,
  Option, none, some, List, leb, ltb, length, arith, Bool-cases, Option-cases, if_keeps, inl, inr,
}
use mcchost.Chat.Colour.{Bytes, TextColour}
use mcchost.Chat.Wrap.{
  Break, Wrapping, pad, mark_space, needs_of, put_char, code_at, shown, fit, flush, round, finish,
  rounds, begin_wrapping,
}
use mcchost.Chat.Bytewise.{IsPut, put_char-IsPut}
use mcchost.Chat.Stages.{
  AreFull, full_append, length-pad, IsSpace, IsBefore, mark_space-IsBefore, mark_space-s,
  needs_cases, fit-IsFitted,
}

-- A round goes on in its line, begins another one further on, or ends the loop.
data Outcome (base : ℕ) (l r : Wrapping) : Type 0 where
  stays : IsBefore base r → l.s < r.s → Outcome base l r
  opens : (b : ℕ) → base < b → IsBefore b r → Outcome base l r
  stops : r.broken ≡ true → AreFull r.sent → length r.line ≡ 64 → Outcome base l r

module _ (textcolour : ℕ → TextColour) (chat : Bytes) where
  flushed :
      (base : ℕ) (normal : Bool) (l p : Wrapping)
      → IsPut base l.s p
      → (let after = flush textcolour chat normal p in
          Outcome base l (record after { s = after.s + 1 }))
  unfolding flush
  flushed base normal l p h = elim (Bool-cases (leb 64 (length p.line))) [
    | inr short ↦ rw short (
        stays
          (record {
            short = ground (arith, short);
            from = omega (arith, h.from);
            start = λ e. omega (arith, e, h.from);
            gt = λ g. ground (arith, h.gt g, short);
            full = h.full;
            on = h.on;
            space_in = later base p.s p.space (ground (arith, h.space_in, short));
          })
          (ground (arith, h.same, short)))
    | inl long ↦
        let exact : length p.line ≡ 64 = ground (arith, h.short, long) in
        elim (Bool-cases normal) [
          | inl sent ↦
              rw (long, sent)
                (opens (p.s + 1) (omega (arith, h.from)) (record {
                  short = omega arith;
                  from = omega arith;
                  start = λ e. refl;
                  gt = λ g. refl;
                  full = full_append p.sent p.line h.full exact;
                  on = h.on;
                  space_in = tt;
                }))
          | inr other ↦ rw (long, other) (stops refl h.full exact)
        ]
  ]
    where
      later : (b s : ℕ) (o : Option Break) → IsSpace b s o → IsSpace b (s + 1) o
      later b s none i = tt
      later b s (some o) i = (i.0, omega (arith, i.1))

  round-Outcome :
      (base : ℕ) (normal : Bool) (l : Wrapping)
      → IsBefore base l
      → Outcome base l (round textcolour chat normal l)
  unfolding round
  round-Outcome base normal l h = elim (Option-cases (code_at textcolour chat l.s)) [
    | inr (col, e) ↦
        rw (e, round)
          (stays
            (record {
              short = h.short;
              from = omega (arith, h.from);
              start = λ q. omega (arith, q, h.from);
              gt = h.gt;
              full = h.full;
              on = h.on;
              space_in = later base l.s l.space h.space_in;
            })
            (omega arith))
    | inl e ↦
        let c = shown textcolour chat l.s in
        let m = mark_space c l in
        let few = needs_cases c m in
        rw (e, round)
          (flushed base normal l _ (
            subst
              (λ k. IsPut base k (put_char c (needs_of c m) (fit textcolour chat (needs_of c m) m)))
              (mark_space-s c l)
              (put_char-IsPut base m.s c (needs_of c m) _ few (
                fit-IsFitted textcolour chat base (needs_of c m) m (omega (arith, few))
                  (mark_space-IsBefore c base l h)))))
  ]
    where
      later : (b s : ℕ) (o : Option Break) → IsSpace b s o → IsSpace b (s + 2) o
      later b s none i = tt
      later b s (some o) i = (i.0, omega (arith, i.1))

  -- The bytes of a line and a round for each: `k` more lines, `j` more rounds in this one.
  abbrev Ends : Bool → ℕ → Wrapping → Type 0
  Ends normal n l =
      (lines : List Bytes) × (rounds textcolour chat n normal l ≡ some lines) × AreFull lines

  finish-AreFull :
      (l : Wrapping) → length l.line ≤ 64 → AreFull l.sent → AreFull (finish textcolour chat l)
  unfolding finish
  finish-AreFull l h k =
      if_keeps AreFull (ltb 0 (length l.line) || l.el) _ _
        (λ e. full_append l.sent (pad l.line) k (length-pad l.line h)) (λ e. k)

  rounds_on :
      (n : ℕ) (normal : Bool) (l : Wrapping)
      → (ltb l.s (length chat) && not l.broken) ≡ true
      → Ends normal n (round textcolour chat normal l)
      → Ends normal (suc n) l
  unfolding rounds
  rounds_on n normal l e h = rw e h

  rounds_off :
      (n : ℕ) (normal : Bool) (l : Wrapping)
      → (ltb l.s (length chat) && not l.broken) ≡ false
      → length l.line ≤ 64
      → AreFull l.sent
      → Ends normal (suc n) l
  unfolding rounds
  rounds_off n normal l e h k = rw e (finish textcolour chat l, refl, finish-AreFull l h k)

  -- The rounds after one that began at `l` and left `r`.
  after_round :
      (n k j base : ℕ) (normal : Bool) (l r : Wrapping)
      → Outcome base l r
      → IsBefore base l
      → l.s < length chat
      → length chat ≤ base + k
      → length chat ≤ l.s + j
      → k * (length chat + 1) + j < suc n
      → ((k' j' b : ℕ)
          → length chat ≤ b + k'
          → length chat ≤ r.s + j'
          → k' * (length chat + 1) + j' < n
          → IsBefore b r
          → Ends normal n r)
      → Ends normal n r
  after_round n k j base normal l r (stays h later) old in_text hk hj hn ih =
      ih k (j - 1) base hk (omega (arith, later, hj, in_text)) (omega (arith, hn, hj, in_text)) h
  after_round n zero j base normal l r (opens b later h) old in_text hk hj hn ih =
      let none_left : ⊥ = omega (arith, hk, in_text, old.from) in elim none_left [ ]
  after_round n (suc k) j base normal l r (opens b later h) old in_text hk hj hn ih =
      ih k (length chat) b (omega (arith, hk, later)) (omega arith) (omega (arith, hn, hj, in_text))
        h
  after_round zero k j base normal l r (stops broken full exact) old in_text hk hj hn ih =
      let none_left : ⊥ = omega (arith, hn, hj, in_text) in elim none_left [ ]
  after_round (suc n) k j base normal l r (stops broken full exact) old in_text hk hj hn ih =
      rounds_off n normal r (ground (arith, broken)) (omega (arith, exact)) full

  rounds-Ends :
      (n k j base : ℕ) (normal : Bool) (l : Wrapping)
      → length chat ≤ base + k
      → length chat ≤ l.s + j
      → k * (length chat + 1) + j < n
      → IsBefore base l
      → Ends normal n l
  rounds-Ends zero k j base normal l hk hj hn h =
      let none_left : ⊥ = omega (arith, hn) in elim none_left [ ]
  rounds-Ends (suc n) k j base normal l hk hj hn h =
      elim (Bool-cases (ltb l.s (length chat) && not l.broken)) [
        | inr off ↦ rounds_off n normal l off (omega (arith, h.short)) h.full
        | inl more ↦ rounds_on n normal l more (
            after_round n k j base normal l (round textcolour chat normal l)
              (round-Outcome base normal l h) h (ground (arith, more)) hk hj hn
              (λ k' j' b p q o i. rounds-Ends n k' j' b normal _ p q o i))
      ]

  -- The loop ends: (n + 1) * (n + 1) rounds are enough for a text of n bytes, whatever the text, the
  -- colours and the type, and each message that it sends has 64 bytes.
  pub rounds-AreFull :
      (normal : Bool)
      → (let n = length chat in
          (lines : List Bytes) × (rounds textcolour chat
              (n * (n + 1) + n + 1)
              normal
              (begin_wrapping textcolour chat)
            ≡ some lines)
          × AreFull lines)
  unfolding begin_wrapping
  rounds-AreFull normal =
      rounds-Ends _ (length chat) (length chat) 0 normal _ (omega arith) (omega arith) (omega arith)
        (record {
          short = omega arith;
          from = omega arith;
          start = λ e. refl;
          gt = λ g. refl;
          full = tt;
          on = refl;
          space_in = tt;
        })
