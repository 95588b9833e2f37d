-- ===== src/Chat/PasteLaws.antt =====
-- The copy of a message fits where the message would, unless the message ends in a mark.
use mcchost.Base.{
  ℕ, suc, ◌+◌, ◌≤◌, ◌≡◌, refl, ap, Bool, false, not, ◌&&◌, ◌||◌, Option, none, some, [], ◌∷◌, ◌++◌,
  ◌==◌, length, length-append, arith, Bool-cases, inl, inr,
}
use mcchost.Chat.Colour.{Bytes, is_mark}
use mcchost.Chat.Paste.{copied, plain_pair, copy_message}

-- There is a copy, of at most `n` bytes.
pub record IsCopied (n : ℕ) (o : Option Bytes) : Type 0 where
  pub text : Bytes
  pub is_text : o ≡ some text
  pub fits : length text ≤ n

copied-IsCopied :
    (k n : ℕ) (bs : Bytes) (o : Option Bytes)
    → length bs ≤ k
    → IsCopied n o
    → IsCopied (k + n) (copied bs o)
copied-IsCopied k n bs o h c = record {
  text = bs ++ c.text;
  is_text = ap (copied bs) c.is_text;
  fits = omega (arith, length-append bs c.text, h, c.fits);
}

wider : (k n : ℕ) (o : Option Bytes) → k ≤ n → IsCopied k o → IsCopied n o
wider k n o h c = record { text = c.text; is_text = c.is_text; fits = omega (arith, h, c.fits) }

length-plain_pair : (c d : ℕ) → length (plain_pair c d) ≤ 2
unfolding plain_pair
length-plain_pair c d = ground arith

-- The last byte, or a NUL.
abbrev pub last_byte : Bytes → ℕ
last_byte [] = 0
last_byte (c ∷ []) = c
last_byte (c ∷ d ∷ msg) = last_byte (d ∷ msg)

last_behind :
    (d : ℕ) (msg : Bytes) → is_mark (last_byte (d ∷ msg)) ≡ false → is_mark (last_byte msg) ≡ false
last_behind d [] h = refl
last_behind d (c ∷ msg) h = h

-- A message whose last byte is no mark is copied without a read behind its end, and the copy is no
-- longer than the message.
pub copy_message-IsCopied :
    (coloured : Bool) (msg : Bytes)
    → is_mark (last_byte msg) ≡ false
    → IsCopied (length msg) (copy_message coloured msg)
unfolding copy_message
copy_message-IsCopied coloured [] h = record { text = []; is_text = refl; fits = omega arith }
copy_message-IsCopied coloured (c ∷ []) h =
    let plain : (c == b'%' || (not coloured && c == b'&')) ≡ false = ground (arith, h) in
    rw plain (record { text = c ∷ []; is_text = refl; fits = omega arith })
copy_message-IsCopied coloured (c ∷ d ∷ msg) h =
    let n = suc (suc (length msg)) in
    let pair : (bs : Bytes) → length bs ≤ 2 → IsCopied n (copied bs (copy_message coloured msg)) =
      λ bs short. wider (2 + length msg) n _ (omega arith) (
        copied-IsCopied 2 (length msg) bs (copy_message coloured msg) short
          (copy_message-IsCopied coloured msg (last_behind d msg h))) in
    elim (Bool-cases (not coloured && is_mark c)) [
      | inl mark ↦ rw mark (pair (plain_pair c d) (length-plain_pair c d))
      | inr other ↦ elim (Bool-cases (c == b'%')) [
        | inl percent ↦ rw (other, percent) (pair (b'&' ∷ d ∷ []) (omega arith))
        | inr plain ↦
            rw (other, plain)
              (wider (1 + suc (length msg)) n _ (omega arith) (
                copied-IsCopied 1 (suc (length msg)) (c ∷ []) (copy_message coloured (d ∷ msg))
                  (omega arith) (copy_message-IsCopied coloured (d ∷ msg) h)))
      ]
    ]

-- No byte of a message is a mark.
abbrev pub IsPlain : Bytes → Type 0
IsPlain [] = Unit
IsPlain (c ∷ msg) = (is_mark c ≡ false) × IsPlain msg

-- A message with a `%` at its end, and no other mark, is read behind its end.
pub copy_message_past :
    (coloured : Bool) (msg : Bytes) → IsPlain msg → copy_message coloured (msg ++ b'%' ∷ []) ≡ none
unfolding copy_message
copy_message_past coloured [] h = refl
copy_message_past coloured (c ∷ []) h =
    let other : (not coloured && is_mark c) ≡ false = ground (arith, h.0) in
    let plain : (c == b'%') ≡ false = ground (arith, h.0) in rw (other, plain) refl
copy_message_past coloured (c ∷ d ∷ msg) h =
    let other : (not coloured && is_mark c) ≡ false = ground (arith, h.0) in
    let plain : (c == b'%') ≡ false = ground (arith, h.0) in
    rw (other, plain) (ap (copied (c ∷ [])) (copy_message_past coloured (d ∷ msg) h.1))
