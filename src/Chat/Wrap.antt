-- ===== src/Chat/Wrap.antt =====
-- The loop of `post_chat` that cuts a line of chat into messages of MB_STRLEN, 64, bytes for this
-- client. `chat` is the text of `chat_len` bytes, a NUL behind it; a signed -1 is no value.
use mcchost.Base.{
  ℕ, zero, suc, ◌+◌, ◌-◌, Bool, true, false, not, ◌&&◌, ◌||◌, Option, none, some, List, [], ◌∷◌,
  ◌++◌, leb, ltb, ◌==◌, if◌then◌else◌, length, take, replicate, get_or,
}
use mcchost.Chat.Colour.{Bytes, TextColour, is_digit}

-- `ws` and `wd`: the last space, in the text and in the line.
pub record Break : Type 0 where
  pub ws : ℕ
  pub wd : ℕ

-- The loop's variables, `line` with its length for `d`; `sent` are the messages so far, and
-- `broken` is set by the break.
pub record Wrapping : Type 0 where
  pub s : ℕ
  pub line : Bytes
  pub space : Option Break
  pub add_gt : Bool
  pub el : Bool
  pub colour : Option ℕ
  pub ncolour : ℕ
  pub sent : List Bytes
  pub broken : Bool

unfoldable pub is_colour_now : Option ℕ → ℕ → Bool
is_colour_now none c = false
is_colour_now (some d) c = c == d

-- `while(d<MB_STRLEN) pkt.message[d++] = ' '`
abbrev pub pad : Bytes → Bytes
pad line = line ++ replicate (64 - length line) b' '

-- Back to the last space, if the line has one that is not its first byte.
unfoldable pub wrap_back : Wrapping → Wrapping
wrap_back l = elim l.space [
  | none ↦ l
  | some b ↦ if ltb 0 b.wd then record l { s = b.ws + 1; line = take b.wd l.line } else l
]

unfoldable pub wrap : Wrapping → Wrapping
unfolding wrap_back
wrap l = let w = wrap_back l in record w { line = pad w.line }

-- The space that a wrap goes back to.
unfoldable pub mark_space : ℕ → Wrapping → Wrapping
mark_space c l =
    if c == b' ' then record l { space = some (record { ws = l.s; wd = length l.line }) } else l

unfoldable pub needs_of : ℕ → Wrapping → ℕ
unfolding is_colour_now
needs_of c l =
    if (length l.line == 0 && leb c b' ')
      || (not (is_colour_now l.colour l.ncolour) && not (c == b' '))
    then 3
    else 1

-- The prompt of a line that goes on.
unfoldable pub put_gt : Wrapping → Wrapping
unfolding is_colour_now
put_gt l =
    if not l.add_gt
    then l
    else if is_colour_now l.colour b'f'
    then record l { add_gt = false; line = l.line ++ (b'>' ∷ b' ' ∷ []) }
    else record l {
      add_gt = false;
      colour = some b'f';
      line = l.line ++ (b'&' ∷ b'f' ∷ b'>' ∷ b' ' ∷ []);
    }

-- The byte `c`, its colour before it; `eatsp` drops a space.
unfoldable pub put_byte : ℕ → ℕ → Bool → Wrapping → Wrapping
unfolding is_colour_now
put_byte c needs eatsp l =
    if ltb 1 needs && not (is_colour_now l.colour l.ncolour)
    then record l { line = l.line ++ (b'&' ∷ l.ncolour ∷ c ∷ []); colour = some l.ncolour }
    else if not eatsp || not (c == b' ')
    then record l { line = l.line ++ (c ∷ []) }
    else l

unfoldable pub put_char : ℕ → ℕ → Wrapping → Wrapping
unfolding put_gt put_byte
put_char c needs l =
    if leb 64 (length l.line)
    then record l { s = l.s - 1 }
    else put_byte c needs l.add_gt (put_gt l)

module _ (textcolour : ℕ → TextColour) (chat : Bytes) where
  -- The colour of the code at `s`, if it is one.
  unfoldable pub code_at : ℕ → Option ℕ
  unfolding is_digit
  code_at s =
      let col = get_or chat (s + 1) 0 in
      let real =
        if (textcolour col).defined && (textcolour col).is_negative
        then (textcolour col).fallback
        else col in
      if get_or chat s 0 == b'&' && ((textcolour real).defined || is_digit real)
      then some real
      else none

  -- The byte shown for the one at `s`.
  unfoldable pub shown : ℕ → ℕ
  shown s = let c = get_or chat s 0 in if c == b'&' then 0xA8 else (if c == 0 then b' ' else c)

  -- Wraps the line where `needs` more bytes do not fit.
  unfoldable pub fit : ℕ → Wrapping → Wrapping
  unfolding wrap
  fit needs l =
      let d = length l.line + needs in
      if d == 64
      then (if ltb (l.s + 1) (length chat) && not (get_or chat (l.s + 1) 0 == b' ')
          then wrap l
          else l)
      else (if ltb 64 d then wrap l else l)

  -- A full line is sent if the message is a normal one, and ends the loop if not.
  unfoldable pub flush : Bool → Wrapping → Wrapping
  flush normal l =
      let c = get_or chat l.s 0 in
      if not (leb 64 (length l.line))
      then l
      else if not normal
      then record l { broken = true }
      else record l {
        sent = l.sent ++ (l.line ∷ []);
        el = false;
        line = [];
        add_gt = true;
        colour = if not (c == 0) && (ltb c b' ' || ltb b'~' c) then none else some b'f';
        space = none;
      }

  -- One round of the loop, its `s++` included.
  unfoldable pub round : Bool → Wrapping → Wrapping
  unfolding code_at shown mark_space needs_of fit put_char flush
  round normal l = elim (code_at l.s) [
    | some col ↦ record l { ncolour = col; s = l.s + 2 }
    | none ↦
        let c = shown l.s in
        let marked = mark_space c l in
        let needs = needs_of c marked in
        let after = flush normal (put_char c needs (fit needs marked)) in
        record after { s = after.s + 1 }
  ]

  -- The last line, padded.
  unfoldable pub finish : Wrapping → List Bytes
  finish l = if ltb 0 (length l.line) || l.el then l.sent ++ (pad l.line ∷ []) else l.sent

  unfoldable pub rounds : ℕ → Bool → Wrapping → Option (List Bytes)
  unfolding round finish
  rounds zero normal l = none
  rounds (suc n) normal l =
      let rest = rounds n normal (round normal l) in
      if ltb l.s (length chat) && not l.broken then rest else some (finish l)

  unfoldable pub begin_wrapping : Wrapping
  begin_wrapping = record {
    s = 0;
    line = [];
    space = none;
    add_gt = false;
    el = true;
    colour = if leb (get_or chat 0 0) b' ' || ltb b'~' (get_or chat 0 0) then none else some b'f';
    ncolour = b'e';
    sent = [];
    broken = false;
  }
