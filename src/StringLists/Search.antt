-- ===== src/StringLists/Search.antt =====
-- What `in_strlist` answers, and when it does not.
use mcchost.Base.{
  ℕ, zero, suc, ◌+◌, ◌<◌, ◌≡◌, refl, sym, subst, Bool, true, false, Option, none, some, [], ◌∷◌,
  ltb, if◌then◌else◌, length, drop, Bool-cases, Option-cases, inl, inr, arith,
}
use mcchost.StringLists.{Bytes, is_prefix, next_index, strstr, is_word, search, in_strlist}

-- A first match at `k` is a match at once from `k` on, and inside the text.
record IsFirst (k : ℕ) (bs entry : Bytes) : Type 0 where
  at_once : strstr (drop k bs) entry ≡ some 0
  inside : k < length bs

next_some : (o : Option ℕ) (k : ℕ) → next_index o ≡ some k → (j : ℕ) × (k ≡ suc j) × (o ≡ some j)
next_some none k h = let never : ⊥ = cc in elim never [ ]
next_some (some j) k h = (j, cc, refl)

no_prefix : (c : ℕ) (cs : Bytes) → is_prefix (c ∷ cs) [] ≡ false
unfolding is_prefix
no_prefix c cs = refl

strstr-IsFirst : (k c : ℕ) (bs cs : Bytes) → strstr bs (c ∷ cs) ≡ some k → IsFirst k bs (c ∷ cs)
unfolding strstr
strstr-IsFirst k c [] cs h =
    let nothing : none ≡ some k = rw (no_prefix c cs) at h in let never : ⊥ = cc in elim never [ ]
strstr-IsFirst k c (b ∷ bs) cs h = elim (Bool-cases (is_prefix (c ∷ cs) (b ∷ bs))) [
  | inl here ↦
      let first : some 0 ≡ some k = rw here at h in
      let start : 0 ≡ k = cc in
      subst (λ (x : ℕ). IsFirst x (b ∷ bs) (c ∷ cs)) start
        (record { at_once = rw here refl; inside = omega arith })
  | inr other ↦
      let later : next_index (strstr bs (c ∷ cs)) ≡ some k = rw other at h in
      let next = next_some (strstr bs (c ∷ cs)) k later in
      let rest = strstr-IsFirst next.0 c bs cs next.2 in
      subst (λ (x : ℕ). IsFirst x (b ∷ bs) (c ∷ cs)) (sym next.1)
        (record { at_once = rest.at_once; inside = omega (arith, rest.inside) })
]

module _ (list : Bytes) (c : ℕ) (cs : Bytes) where
  abbrev entry : Bytes
  entry = c ∷ cs

  -- A match that is no word is found again in each round.
  stuck :
      (n q : ℕ)
      → strstr list entry ≡ some q
      → is_word list entry q ≡ false
      → search list entry n q ≡ none
  unfolding search
  stuck zero q found no_word = refl
  stuck (suc n) q found no_word =
      let first = strstr-IsFirst q c list cs found in
      let inside : ltb q (length list) ≡ true = ground (arith, first.inside) in
      let here : q + 0 ≡ q = omega arith in
      rw (inside, first.at_once, here, no_word) (stuck n q found no_word)

  -- The answer where the first place is this.
  abbrev pub first_answer : Option ℕ → Option Bool
  first_answer none = some false
  first_answer (some q) = if is_word list entry q then some true else none

  -- `in_strlist` goes by the first place where the entry, which is not empty, stands in the list: it answers 0 where there
  -- is none, 1 where it is a whole word, and where it is part of a longer word the loop never ends,
  -- whether or not the word itself comes later.
  pub in_strlist-strstr : (n : ℕ) → in_strlist list entry (suc n) ≡ first_answer (strstr list entry)
  unfolding in_strlist search
  in_strlist-strstr n = elim (Option-cases (strstr list entry)) [
    | inl absent ↦ rw absent (ground arith)
    | inr (q, found) ↦
        let first = strstr-IsFirst q c list cs found in
        let begins : ltb 0 (length list) ≡ true = ground (arith, first.inside) in
        let here : 0 + q ≡ q = omega arith in
        elim (Bool-cases (is_word list entry q)) [
          | inl word ↦ rw (begins, found, here, word) refl
          | inr part ↦ rw (begins, found, here, part) (stuck n q found part)
        ]
  ]
