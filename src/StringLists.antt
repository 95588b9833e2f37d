-- ===== src/StringLists.antt =====
-- strops.c: lists of words, with spaces or commas between them. A string is its bytes before the NUL,
-- and a pointer into it is an index.
use mcchost.Base.{
  ℕ, zero, suc, ◌+◌, ◌-◌, Bool, true, false, not, ◌&&◌, ◌||◌, Option, none, some, List, [], ◌∷◌,
  ◌++◌, ltb, ◌==◌, if◌then◌else◌, length, get_or, drop,
}
pub mod Search

abbrev pub Bytes : Type 0
Bytes = List ℕ

unfoldable pub is_prefix : Bytes → Bytes → Bool
is_prefix [] bs = true
is_prefix (e ∷ es) [] = false
is_prefix (e ∷ es) (b ∷ bs) = e == b && is_prefix es bs

abbrev pub next_index : Option ℕ → Option ℕ
next_index none = none
next_index (some k) = some (suc k)

-- `strstr`: how far the first `entry` is.
unfoldable pub strstr : Bytes → Bytes → Option ℕ
strstr [] entry = if is_prefix entry [] then some 0 else none
strstr (b ∷ bs) entry =
    let rest = next_index (strstr bs entry) in if is_prefix entry (b ∷ bs) then some 0 else rest

abbrev pub is_gap : ℕ → Bool
is_gap c = c == b' ' || c == b','

module _ (list entry : Bytes) where
  -- What is found at `p` is a whole word.
  unfoldable pub is_word : ℕ → Bool
  is_word p =
      let e = get_or list (p + length entry) 0 in
      (p == 0 || is_gap (get_or list (p - 1) 0)) && (e == 0 || is_gap e)

  abbrev pub after_search : ℕ → (ℕ → Option Bool) → Option ℕ → Option Bool
  after_search p again none = some false
  after_search p again (some k) = if is_word (p + k) then some true else again (p + k)

  -- Rounds of the loop from `p` on; no result where they are used up.
  unfoldable pub search : ℕ → ℕ → Option Bool
  search zero p = none
  search (suc n) p =
      let found = after_search p (λ q. search n q) (strstr (drop p list) entry) in
      if ltb p (length list) then found else some false

  unfoldable pub in_strlist : ℕ → Option Bool
  in_strlist n = search n 0

  -- -1 where there is no room in `l` bytes, 0 where the word is there, 1 where it is added.
  unfoldable pub add_strlist : ℕ → ℕ → Option (Option Bool × Bytes)
  add_strlist n l =
      if ltb l (length list + length entry + 2) then some (none, list) else elim (in_strlist n) [
        | none ↦ none
        | some true ↦ some (some false, list)
        | some false ↦
            some (some true, (if length list == 0 then list else list ++ b',' ∷ []) ++ entry)
      ]
