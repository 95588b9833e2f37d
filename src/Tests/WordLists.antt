-- ===== src/Tests/WordLists.antt =====
-- Searches in lists of words.
use mcchost.Base.{◌≡◌, refl, true, none, some, [], ◌∷◌}
use mcchost.StringLists.{Bytes, is_prefix, strstr, is_word, search, in_strlist, add_strlist}
use mcchost.StringLists.Search.{first_answer, in_strlist-strstr}

-- "ab,a"
abbrev ab_a : Bytes
ab_a = b'a' ∷ b'b' ∷ b',' ∷ b'a' ∷ []

found_seen : in_strlist ab_a (b'a' ∷ b'b' ∷ []) 1 ≡ some true
unfolding in_strlist search strstr is_prefix is_word
found_seen = refl

-- The word "a" is in the list, but behind "ab".
lost_seen : in_strlist ab_a (b'a' ∷ []) 50 ≡ none
unfolding in_strlist search strstr is_prefix is_word
lost_seen = refl

added_seen :
    add_strlist ab_a (b'c' ∷ []) 1 10
    ≡ some (some true, b'a' ∷ b'b' ∷ b',' ∷ b'a' ∷ b',' ∷ b'c' ∷ [])
unfolding add_strlist in_strlist search strstr is_prefix is_word
added_seen = refl

in_strlist-strstr_example :
    in_strlist ab_a (b'a' ∷ []) 50 ≡ first_answer ab_a b'a' [] (strstr ab_a (b'a' ∷ []))
in_strlist-strstr_example = in_strlist-strstr ab_a b'a' [] 49
