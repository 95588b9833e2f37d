-- ===== src/Receive/Clean.antt =====
-- Text fields come through whole, and hold what the server can print.
use mcchost.Base.{
  ℕ, zero, suc, ◌+◌, ◌-◌, ◌%◌, replicate, ap₂, ◌≤◌, ◌<◌, ◌≡◌, ◌≢◌, ◌∙◌, refl, ap, Bool, true, false,
  [], ◌∷◌, ◌++◌, arith, ◌==◌, if◌then◌else◌, length, take, take_all, length-append,
  length-replicate, Option, Bool-cases, inl, inr,
}
use mcchost.Packet.Config.{Config}
use mcchost.Packet.Text.{copy_text, nb_string_write}
use mcchost.Packet.Ascii.{IsPrintable, cp437_ascii-IsPrintable}
use mcchost.Receive.Frame.{Bytes}
use mcchost.Receive.Text.{
  is_blank, used_len, clean_byte, clean_first, strip, keep, sanitise_nbstring,
}

-- Each byte has a property.
abbrev pub All : (ℕ → Type 0) → Bytes → Type 0
All P [] = Unit
All P (c ∷ s) = P c × All P s

abbrev IsBlank : ℕ → Type 0
IsBlank c = is_blank c ≡ true

-- `used_len`, from the end of the text.
used : Bytes → ℕ
used [] = 0
used (c ∷ s) = if used s == 0 then (if is_blank c then 0 else 1) else suc (used s)

used_len-used : (s : Bytes) (i l : ℕ) → used_len i l s ≡ (if used s == 0 then l else i + used s)
unfolding used_len used
used_len-used [] i l = refl
used_len-used (c ∷ s) i l =
    ground (arith, used_len-used s (suc i) (if is_blank c then l else suc i))

strip_blanks : (s : Bytes) → used s ≡ 0 → strip s ≡ []
unfolding strip used
strip_blanks [] h = refl
strip_blanks (c ∷ s) h = elim (Bool-cases (used s == 0)) [
  | inl none ↦ elim (Bool-cases (is_blank c)) [
    | inl blank ↦ rw (strip_blanks s (ground (arith, none)), blank) refl
    | inr other ↦ absurd (ground (arith, h, none, other))
  ]
  | inr more ↦ absurd (ground (arith, h, more))
]

All-keep : (P : ℕ → Type 0) (c : ℕ) (s : Bytes) → P c → All P s → All P (keep c s)
All-keep P c [] p ps = elim (Bool-cases (is_blank c)) [
  | inl blank ↦ rw blank tt
  | inr other ↦ rw other (p, tt)
]
All-keep P c (d ∷ s) p ps = (p, ps)

-- Where the blanks at the end go, what is left is the part that was cleaned.
strip-clean_first :
    (f : ℕ → ℕ) (P : ℕ → Type 0)
    → ((c : ℕ) → c < 256 → P (f c))
    → (s : Bytes) → All (λ c. c < 256) s
    → All P (strip (clean_first f (used s) s))
unfolding strip clean_first used
strip-clean_first f P h [] bytes = tt
strip-clean_first f P h (c ∷ s) (b, bs) = elim (Bool-cases (used s == 0)) [
  | inl none ↦
      let rest = strip_blanks s (ground (arith, none)) in
      elim (Bool-cases (is_blank c)) [
        | inl blank ↦ rw (none, blank, rest, blank) tt
        | inr other ↦ rw (none, other, rest) (All-keep P (f c) [] (h c b) tt)
      ]
  | inr more ↦ rw more (All-keep P (f c) _ (h c b) (strip-clean_first f P h s bs))
]

All-take : (P : ℕ → Type 0) (n : ℕ) (s : Bytes) → All P s → All P (take n s)
All-take P zero s ps = tt
All-take P (suc n) [] ps = tt
All-take P (suc n) (c ∷ s) (p, ps) = (p, All-take P n s ps)

clean_byte-IsPrintable : (c : ℕ) → c < 256 → IsPrintable (clean_byte false true c)
unfolding clean_byte
clean_byte-IsPrintable c h =
    let table = cp437_ascii-IsPrintable (c % 128) (omega arith) in ground (arith, table)

-- A field that a client sends, whatever bytes it holds, becomes a text of printable ASCII characters
-- where FullCP437 is off and `printable` is asked for, as it is for the names of a login.
pub sanitise_nbstring-IsPrintable :
    (str : Bytes) → All (λ c. c < 256) str → All IsPrintable (sanitise_nbstring false str true)
unfolding sanitise_nbstring
sanitise_nbstring-IsPrintable str bytes = rw (used_len_used_all (take 64 str)) (
    strip-clean_first (clean_byte false true) IsPrintable clean_byte-IsPrintable (take 64 str)
      (All-take (λ c. c < 256) 64 str bytes))
  where
    used_len_used_all : (s : Bytes) → used_len 0 0 s ≡ used s
    used_len_used_all s = used_len-used s 0 0 ∙ ground arith

-- The other way round: a text that is sent comes back.
copy_text_nil : (n : ℕ) → copy_text (λ c. c) n [] ≡ replicate n b' '
unfolding copy_text
copy_text_nil zero = refl
copy_text_nil (suc n) = ap (◌∷◌ b' ') (copy_text_nil n)

copy_text-append :
    (n : ℕ) (s : Bytes)
    → All (λ c. c ≢ 0) s
    → length s ≤ n
    → copy_text (λ c. c) n s ≡ s ++ replicate (n - length s) b' '
unfolding copy_text
copy_text-append zero [] ok h = refl
copy_text-append zero (c ∷ s) ok h = absurd (omega arith)
copy_text-append (suc n) [] ok h =
    let same : suc n - 0 ≡ suc n = omega arith in rw same (copy_text_nil (suc n))
copy_text-append (suc n) (c ∷ s) (ok, oks) h =
    let other : (c == 0) ≡ false = ground (arith, ok) in
    let same : suc n - suc (length s) ≡ n - length s = omega arith in
    rw (other, same) (ap (◌∷◌ c) (copy_text-append n s oks (omega arith)))

strip-spaces : (k : ℕ) → strip (replicate k b' ') ≡ []
unfolding strip
strip-spaces zero = refl
strip-spaces (suc k) = rw (strip-spaces k) refl

strip-append : (s : Bytes) (k : ℕ) → strip (s ++ replicate k b' ') ≡ strip s
unfolding strip
strip-append [] k = strip-spaces k
strip-append (c ∷ s) k = ap (keep c) (strip-append s k)

clean_first_same : (f : ℕ → ℕ) (n : ℕ) (s : Bytes) → All (λ c. f c ≡ c) s → clean_first f n s ≡ s
unfolding clean_first
clean_first_same f zero s ok = refl
clean_first_same f (suc n) [] ok = refl
clean_first_same f (suc n) (c ∷ s) (ok, oks) = ap₂ ◌∷◌ ok (clean_first_same f n s oks)

All-append : (P : ℕ → Type 0) (s t : Bytes) → All P s → All P t → All P (s ++ t)
All-append P [] t ps pt = pt
All-append P (c ∷ s) t (p, ps) pt = (p, All-append P s t ps pt)

All-replicate : (P : ℕ → Type 0) (k c : ℕ) → P c → All P (replicate k c)
All-replicate P zero c p = tt
All-replicate P (suc k) c p = (p, All-replicate P k c p)

All-map : (P Q : ℕ → Type 0) (s : Bytes) → ((c : ℕ) → P c → Q c) → All P s → All Q s
All-map P Q [] h ps = tt
All-map P Q (c ∷ s) h (p, ps) = (h c p, All-map P Q s h ps)

clean_byte_same : (printable : Bool) (c : ℕ) → c ≢ 0 → clean_byte true printable c ≡ c
unfolding clean_byte
clean_byte_same printable c h = ground (arith, h)

if_of_true : (b : Bool) (x y : Bytes) → b ≡ true → (if b then x else y) ≡ x
if_of_true b x y h = rw h refl

written :
    (cfg : Config) (textcolour : ℕ → Option ℕ) (after : ℕ) (s : Bytes)
    → cfg.extn_alltext ≡ true
    → nb_string_write cfg textcolour after s ≡ copy_text (λ c. c) 64 s
unfolding nb_string_write
written cfg textcolour after s h = if_of_true cfg.extn_alltext (copy_text (λ c. c) 64 s) _ h

-- What `nb_string_write` sends of a text to a client that takes every text as it is, with the full
-- code page, `sanitise_nbstring` reads back as the text, with that extension: a text of at most 64
-- bytes, without a NUL and without blanks at its end.
pub sanitise_nbstring-nb_string_write :
    (cfg : Config) (textcolour : ℕ → Option ℕ) (after : ℕ) (printable : Bool) (s : Bytes)
    → cfg.extn_alltext ≡ true
    → All (λ c. c ≢ 0) s
    → length s ≤ 64
    → strip s ≡ s
    → sanitise_nbstring true (nb_string_write cfg textcolour after s) printable ≡ s
unfolding sanitise_nbstring
sanitise_nbstring-nb_string_write cfg textcolour after printable s alltext ok short filled =
    let k = 64 - length s in
    let field = s ++ replicate k b' ' in
    let sent = written cfg textcolour after s alltext ∙ copy_text-append 64 s ok short in
    let same =
      All-map (λ c. c ≢ 0) (λ c. clean_byte true printable c ≡ c) field (clean_byte_same printable)
        (All-append (λ c. c ≢ 0) s (replicate k b' ') ok
          (All-replicate (λ c. c ≢ 0) k b' ' (omega arith))) in
    let fits : length field ≤ 64 =
      omega (arith, length-append {0} s (replicate k b' '), length-replicate {A = ℕ} k b' ') in
    rw
      (
        sent,
        take_all 64 field fits,
        clean_first_same (clean_byte true printable) (used_len 0 0 field) field same,
      )
      (strip-append s k ∙ filled)
