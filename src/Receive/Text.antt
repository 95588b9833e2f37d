-- ===== src/Receive/Text.antt =====
-- `sanitise_nbstring` and `convert_logon_packet` of requestloop.c: the text fields that come in. The
-- C string that is left in the buffer is the list of its bytes.
use mcchost.Base.{
  ℕ, zero, suc, ◌%◌, Bool, true, ◌&&◌, ◌||◌, [], ◌∷◌, ltb, leb, ◌==◌, if◌then◌else◌, take, drop,
  get_or,
}
use mcchost.Packet.Text.{cp437_ascii}
use mcchost.Receive.Frame.{Bytes}

abbrev pub is_blank : ℕ → Bool
is_blank c = c == b' ' || c == 0

-- `l`: one more than the place of the last byte that is no blank.
unfoldable pub used_len : ℕ → ℕ → Bytes → ℕ
used_len i l [] = l
used_len i l (c ∷ s) = used_len (suc i) (if is_blank c then l else suc i) s

-- What becomes of a byte before that place.
unfoldable pub clean_byte : Bool → Bool → ℕ → ℕ
unfolding cp437_ascii
clean_byte fullcp437 printable c =
    if fullcp437
    then if c == 0 then 0xFF else c
    else if c == 0
    then b' '
    else if printable && ((ltb 0 c && ltb c b' ') || c == 127)
    then b'*'
    else if leb 128 c
    then cp437_ascii (c % 128)
    else c

unfoldable pub clean_first : (ℕ → ℕ) → ℕ → Bytes → Bytes
clean_first f zero s = s
clean_first f (suc n) [] = []
clean_first f (suc n) (c ∷ s) = f c ∷ clean_first f n s

-- A byte in front of what is left of the bytes behind it.
abbrev pub keep : ℕ → Bytes → Bytes
keep c [] = if is_blank c then [] else c ∷ []
keep c (d ∷ s) = c ∷ d ∷ s

-- The last loop: the blanks at the end become NULs.
unfoldable pub strip : Bytes → Bytes
strip [] = []
strip (c ∷ s) = keep c (strip s)

unfoldable pub sanitise_nbstring : Bool → Bytes → Bool → Bytes
sanitise_nbstring fullcp437 str printable =
    let buf = take 64 str in
    strip (clean_first (clean_byte fullcp437 printable) (used_len 0 0 buf) buf)

-- `pkt_player_id`.
pub record PlayerId : Type 0 where
  pub protocol : ℕ
  pub user_id : Bytes
  pub mppass : Bytes
  pub cpe_flag : Bool

unfoldable pub convert_logon_packet : Bool → Bytes → PlayerId
unfolding sanitise_nbstring
convert_logon_packet fullcp437 pktbuf =
    let protocol = get_or pktbuf 1 0 in
    let flg = if protocol == 6 || protocol == 7 then get_or pktbuf 130 0 else 0 in
    record {
      protocol = protocol;
      user_id = sanitise_nbstring fullcp437 (drop 2 pktbuf) true;
      mppass = sanitise_nbstring fullcp437 (drop 66 pktbuf) true;
      cpe_flag = protocol == 7 && flg == 0x42;
    }
