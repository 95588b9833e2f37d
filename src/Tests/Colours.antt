-- ===== src/Tests/Colours.antt =====
-- Chat on its way to the client: colours, and lines of 64 bytes.
use mcchost.Base.{
  ℕ, ◌+◌, ◌*◌, ◌≡◌, refl, true, false, none, some, List, [], ◌∷◌, ◌++◌, replicate, arith, ◌==◌,
}
use mcchost.Chat.Colour.{Bytes, TextColour, is_digit, names_colour, colour_of, revert_amp_to_perc}
use mcchost.Chat.ColourLaws.{IsColoured, revert_amp_to_perc-IsColoured}
use mcchost.Chat.Paste.{plain_pair, copy_message}
use mcchost.Chat.PasteLaws.{IsCopied, copy_message-IsCopied, copy_message_past}
use mcchost.Chat.Wrap.{
  rounds, round, begin_wrapping, finish, code_at, shown, fit, wrap, wrap_back, flush, mark_space,
  needs_of, put_char, put_gt, put_byte, is_colour_now,
}
use mcchost.Chat.Stages.{AreFull}
use mcchost.Chat.WrapLaws.{rounds-AreFull}

-- A colour `S` with a fallback, and no others.
abbrev s_colour : ℕ → TextColour
s_colour c = record { defined = c == b'S'; is_negative = c == b'S'; fallback = b'e' }

revert_seen :
    revert_amp_to_perc s_colour (b'%' ∷ b'a' ∷ b'&' ∷ b'S' ∷ b'%' ∷ b'z' ∷ b'&' ∷ [])
    ≡ b'&' ∷ b'a' ∷ b'&' ∷ b'e' ∷ b'%' ∷ b'z' ∷ b'%' ∷ []
unfolding revert_amp_to_perc names_colour colour_of is_digit
revert_seen = refl

falls_back :
    (c : ℕ) → names_colour s_colour c ≡ true → names_colour s_colour (colour_of s_colour c) ≡ true
unfolding names_colour colour_of is_digit
falls_back c h = ground (arith, h)

revert_amp_to_perc-IsColoured_example :
    IsColoured s_colour (revert_amp_to_perc s_colour (b'%' ∷ b'S' ∷ b'h' ∷ b'i' ∷ []))
revert_amp_to_perc-IsColoured_example =
    revert_amp_to_perc-IsColoured s_colour (b'%' ∷ b'S' ∷ b'h' ∷ b'i' ∷ []) falls_back

copy_seen :
    copy_message false (b'%' ∷ b'a' ∷ b'%' ∷ b'z' ∷ b'%' ∷ b'%' ∷ b'h' ∷ [])
    ≡ some (b'&' ∷ b'a' ∷ b'%' ∷ b'z' ∷ b'%' ∷ b'h' ∷ [])
unfolding copy_message plain_pair is_digit
copy_seen = refl

copy_message-IsCopied_example : IsCopied 3 (copy_message true (b'%' ∷ b'a' ∷ b'h' ∷ []))
copy_message-IsCopied_example = copy_message-IsCopied true (b'%' ∷ b'a' ∷ b'h' ∷ []) refl

copy_message_past_example : copy_message true ((b'h' ∷ b'i' ∷ []) ++ b'%' ∷ []) ≡ none
copy_message_past_example = copy_message_past true (b'h' ∷ b'i' ∷ []) (refl, (refl, tt))

abbrev pub no_colours : ℕ → TextColour
no_colours c = record { defined = false; is_negative = false; fallback = 0 }

-- 40 letters, a space and 30 letters in the middle of which the colour changes.
abbrev two_words : Bytes
two_words = replicate 40 b'a' ++ b' ' ∷ (replicate 20 b'b' ++ b'&' ∷ b'c' ∷ replicate 10 b'd')

-- The second word is wrapped, and its first letters have the colour of the last ones.
wrap_seen :
    rounds no_colours two_words 200 true (begin_wrapping no_colours two_words)
    ≡ some (
        (b'&' ∷ b'e' ∷ (replicate 40 b'a' ++ replicate 22 b' '))
        ∷ (b'>'
            ∷ b' '
            ∷ b'&'
            ∷ b'c'
            ∷ (replicate 20 b'b' ++ (replicate 10 b'd' ++ replicate 30 b' ')))
        ∷ [])
unfolding rounds round begin_wrapping finish code_at shown fit wrap wrap_back flush mark_space
    needs_of put_char put_gt put_byte is_colour_now is_digit
wrap_seen = refl

rounds-AreFull_example :
    (lines : List Bytes) × (rounds no_colours two_words
        (73 * (73 + 1) + 73 + 1)
        true
        (begin_wrapping no_colours two_words)
      ≡ some lines)
    × AreFull lines
rounds-AreFull_example = rounds-AreFull no_colours two_words true
