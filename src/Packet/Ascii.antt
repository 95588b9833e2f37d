-- ===== src/Packet/Ascii.antt =====
-- The table of cp437.c holds printable ASCII characters only.
use mcchost.Base.{
  ℕ, zero, suc, ◌≤◌, ◌<◌, ◌≡◌, refl, Bool, true, ◌&&◌, List, [], ◌∷◌, ltb, leb, get_or, length,
  arith,
}
use mcchost.Packet.Text.{cp437_ascii, cp437_table}

abbrev pub IsPrintable : ℕ → Type 0
IsPrintable c = (32 ≤ c) × (c < 127)

abbrev all_printable : List ℕ → Bool
all_printable [] = true
all_printable (c ∷ s) = leb 32 c && ltb c 127 && all_printable s

get_or-IsPrintable :
    (s : List ℕ) (i : ℕ) → all_printable s ≡ true → i < length s → IsPrintable (get_or s i 0)
get_or-IsPrintable [] i h l = absurd (omega arith)
get_or-IsPrintable (c ∷ s) zero h l = ground arith
get_or-IsPrintable (c ∷ s) (suc i) h l = get_or-IsPrintable s i (ground arith) (omega arith)

pub cp437_ascii-IsPrintable : (i : ℕ) → i < 128 → IsPrintable (cp437_ascii i)
unfolding cp437_ascii
cp437_ascii-IsPrintable i h = get_or-IsPrintable cp437_table i refl h
