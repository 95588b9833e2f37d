-- ===== src/Chat/Paste.antt =====
-- The loop of `convert_and_post_chat` that copies a message and turns its marks into colours. A
-- message is the bytes before its NUL; no result is a read behind that NUL.
use mcchost.Base.{ℕ, Bool, not, ◌&&◌, ◌||◌, Option, none, some, [], ◌∷◌, ◌++◌, ◌==◌, if◌then◌else◌}
use mcchost.Chat.Colour.{Bytes, is_digit, is_mark}

-- Some bytes before the rest of a copy.
abbrev pub copied : Bytes → Option Bytes → Option Bytes
copied bs none = none
copied bs (some rest) = some (bs ++ rest)

-- The two bytes of a mark, for a client without TextColors.
unfoldable pub plain_pair : ℕ → ℕ → Bytes
unfolding is_digit
plain_pair c d =
    if is_digit d
    then b'&' ∷ d ∷ []
    else (if c == b'%' then c ∷ [] else [])
      ++ (if (not (c == b'%') || not (d == b'%')) && not (d == b'&') then d ∷ [] else [])

-- `extn_textcolours` is `coloured`.
unfoldable pub copy_message : Bool → Bytes → Option Bytes
unfolding plain_pair
copy_message coloured [] = some []
copy_message coloured (c ∷ []) =
    if c == b'%' || (not coloured && c == b'&') then none else some (c ∷ [])
copy_message coloured (c ∷ d ∷ msg) =
    let behind = copy_message coloured msg in
    let next = copy_message coloured (d ∷ msg) in
    if not coloured && is_mark c
    then copied (plain_pair c d) behind
    else if c == b'%'
    then copied (b'&' ∷ d ∷ []) behind
    else copied (c ∷ []) next
