-- ===== src/Packet/Text.antt =====
-- `nb_string_write` of send_packet.c: a C string as the 64 bytes of a packet's text field. A C string is
-- the list of its bytes, up to a NUL or the end of the list.
use Prim.Native.Char.{code}
use Prim.Native.String.{String}
use mcchost.Base.{
  ℕ, zero, suc, ◌+◌, ◌-◌, ◌%◌, ◌≡◌, Bool, not, ◌&&◌, ◌||◌, Option, none, some, [], ◌∷◌, ltb, leb,
  ◌==◌, if◌then◌else◌, get_or, set, replicate, length, refl, ap, arith, length-set,
  length-replicate,
}
use mcchost.Packet.Config.{Config}
use mcchost.Packet.Encode.{Bytes}

abbrev codes : String → Bytes
codes String.[] = []
codes (String.◌∷◌ c s) = code c ∷ codes s

-- The table of cp437.c for the upper half of the code page.
abbrev pub cp437_table : Bytes
cp437_table =
    codes
      "CueaaaaceeeiiiAAE**ooouuyOUc$YPsaiounNao?++**!<>###||||++||++++++--|-+||++--|-+----++++++++##||#aBTPEsyt******EN=+><++-=... n2* "

unfoldable pub cp437_ascii : ℕ → ℕ
cp437_ascii i = get_or cp437_table i 0

abbrev pub mb_strlen : ℕ
mb_strlen = 64

-- The byte for one character: code page 437 goes out only where the client takes it.
unfoldable pub text_byte : Config → ℕ → ℕ
unfolding cp437_ascii
text_byte cfg c = if not cfg.extn_fullcp437 && leb 128 c then cp437_ascii (c % 128) else c

-- The first two loops: the string's bytes, then spaces.
unfoldable pub copy_text : (ℕ → ℕ) → ℕ → Bytes → Bytes
copy_text f zero s = []
copy_text f (suc n) [] = b' ' ∷ copy_text f n []
copy_text f (suc n) (c ∷ s) = if c == 0 then replicate (suc n) b' ' else f c ∷ copy_text f n s

-- `lns`: the place of the last byte that is no space, and 0 if there is none.
unfoldable pub last_nonspace : ℕ → ℕ → Bytes → ℕ
last_nonspace i lns [] = lns
last_nonspace i lns (c ∷ s) = last_nonspace (suc i) (if c == b' ' then lns else i) s

-- `while(lns > 0 && pkt[lns] == ' ') lns--;`
unfoldable pub back_over_spaces : Bytes → ℕ → ℕ
back_over_spaces pkt zero = zero
back_over_spaces pkt (suc l) =
    let back = back_over_spaces pkt l in if get_or pkt (suc l) 0 == b' ' then back else suc l

pub record Line : Type 0 where
  pub pkt : Bytes
  pub lns : ℕ

-- The loop that blanks a colour mark before the last character; `lns` is below the fuel.
unfoldable pub drop_marks : ℕ → Line → Line
unfolding back_over_spaces
drop_marks zero t = t
drop_marks (suc fuel) t =
    let pkt' = set (set t.pkt t.lns b' ') (t.lns - 1) b' ' in
    let more = drop_marks fuel (record { pkt = pkt'; lns = back_over_spaces pkt' t.lns }) in
    if ltb 0 t.lns && get_or t.pkt (t.lns - 1) 0 == b'&' then more else t

unfoldable pub is_colour : ℕ → Bool
is_colour c = (leb b'0' c && leb c b'9') || (leb b'a' c && leb c b'f') || (leb b'A' c && leb c b'F')

-- The colours of a client without TextColors: `textcolour` gives the fallback of a colour that the
-- server defines. `after` is the byte of the buffer behind the field, which the loop reads when the
-- field ends in a mark; what it writes there is not part of the field.
unfoldable pub wipe_colours : (ℕ → Option ℕ) → ℕ → Bytes → Bytes
unfolding is_colour
wipe_colours textcolour after [] = []
wipe_colours textcolour after (c ∷ []) =
    (if c == b'&' && not (is_colour after) then b'%' else c) ∷ []
wipe_colours textcolour after (c ∷ d ∷ s) =
    let plain = c ∷ wipe_colours textcolour after (d ∷ s) in
    let known : ℕ = elim (textcolour d) [ none ↦ d | some f ↦ f ] in
    let coloured = b'&' ∷ known ∷ wipe_colours textcolour after s in
    let wiped = b'%' ∷ b' ' ∷ wipe_colours textcolour after s in
    if c == b'&' then (if is_colour d then coloured else wiped) else plain

-- The last character of a line must not be a control character for clients without EmoteFix.
unfoldable pub fix_emote : Config → Line → Bytes
fix_emote cfg t =
    if not cfg.extn_emotefix && ltb (get_or t.pkt t.lns 0) b' '
    then if ltb t.lns (mb_strlen - 1) then set t.pkt (t.lns + 1) b'`' else set t.pkt t.lns b'*'
    else t.pkt

unfoldable pub nb_string_write : Config → (ℕ → Option ℕ) → ℕ → Bytes → Bytes
nb_string_write cfg textcolour after str =
    if cfg.extn_alltext
    then copy_text (λ c. c) mb_strlen str
    else (let pkt = copy_text (text_byte cfg) mb_strlen str in
        let t = drop_marks mb_strlen (record { pkt = pkt; lns = last_nonspace 0 0 pkt }) in
        let wiped = if cfg.extn_textcolours then t.pkt else wipe_colours textcolour after t.pkt in
        fix_emote cfg (record { pkt = wiped; lns = t.lns }))

length-copy_text : (f : ℕ → ℕ) (n : ℕ) (s : Bytes) → length (copy_text f n s) ≡ n
unfolding copy_text
length-copy_text f zero s = refl
length-copy_text f (suc n) [] = ap suc (length-copy_text f n [])
length-copy_text f (suc n) (c ∷ s) =
    ground (arith, length-copy_text f n s, length-replicate {A = ℕ} n b' ')

length-drop_marks : (n : ℕ) (t : Line) → length (drop_marks n t).pkt ≡ length t.pkt
unfolding drop_marks
length-drop_marks zero t = refl
length-drop_marks (suc n) t = ground (
  arith,
  length-set {0} t.pkt t.lns b' ',
  length-set {0} (set t.pkt t.lns b' ') (t.lns - 1) b' ',
  length-drop_marks n (record {
    pkt = set (set t.pkt t.lns b' ') (t.lns - 1) b' ';
    lns = back_over_spaces (set (set t.pkt t.lns b' ') (t.lns - 1) b' ') t.lns;
  }),
)

length-wipe_colours :
    (f : ℕ → Option ℕ) (after : ℕ) (s : Bytes) → length (wipe_colours f after s) ≡ length s
unfolding wipe_colours
length-wipe_colours f after [] = refl
length-wipe_colours f after (c ∷ []) = refl
length-wipe_colours f after (c ∷ d ∷ s) =
    ground (arith, length-wipe_colours f after s, length-wipe_colours f after (d ∷ s))

length-fix_emote : (cfg : Config) (t : Line) → length (fix_emote cfg t) ≡ length t.pkt
unfolding fix_emote
length-fix_emote cfg t =
    ground (arith, length-set {0} t.pkt (t.lns + 1) b'`', length-set {0} t.pkt t.lns b'*')

-- Every text field is 64 bytes, whatever the string.
pub length-nb_string_write :
    (cfg : Config) (f : ℕ → Option ℕ) (after : ℕ) (s : Bytes)
    → length (nb_string_write cfg f after s) ≡ 64
unfolding nb_string_write
length-nb_string_write cfg f after s =
    let pkt = copy_text (text_byte cfg) mb_strlen s in
    let t = drop_marks mb_strlen (record { pkt = pkt; lns = last_nonspace 0 0 pkt }) in
    ground (
      arith,
      length-copy_text (λ c. c) mb_strlen s,
      length-copy_text (text_byte cfg) mb_strlen s,
      length-drop_marks mb_strlen (record { pkt = pkt; lns = last_nonspace 0 0 pkt }),
      length-wipe_colours f after t.pkt,
      length-fix_emote cfg (record { pkt = wipe_colours f after t.pkt; lns = t.lns }),
      length-fix_emote cfg (record { pkt = t.pkt; lns = t.lns }),
    )
