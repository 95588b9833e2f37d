-- ===== src/Websocket/Headers.antt =====
-- The headers that `websocket_header` writes, without a mask and with one.
use mcchost.Base.{
  ℕ, ◌+◌, ◌%◌, ◌<◌, ◌≤◌, ◌≡◌, ◌⊎◌, refl, true, false, [], ◌∷◌, ◌++◌, ltb, leb, ◌==◌, length, get_or,
  arith, if◌then◌else◌, inl, inr, shr,
}
use mcchost.Websocket.{
  Bytes, header_size, header_len, big_endian, start_packet, strip_mask, unmask, websocket_header,
}
use mcchost.Websocket.Frames.{Opens}

-- A client sets the highest bit of the length and puts the mask behind it.
abbrev pub add_mask : Bytes → Bytes → Bytes
add_mask mask [] = []
add_mask mask (op ∷ []) = op ∷ []
add_mask mask (op ∷ len ∷ more) = op ∷ (len + 128) ∷ (more ++ mask)

-- The lengths that are read as they are written.
abbrev pub IsSafe : ℕ → Type 0
IsSafe n = (n < 125) ⊎ ((126 ≤ n) × (n < 65536))

flags_plain_short : (l : ℕ) (buf : Bytes) → 2 ≤ l → get_or buf 1 0 < 125 → header_size l buf ≡ 2
unfolding header_size
flags_plain_short l buf le h = ground (arith, le, h)

flags_plain_long : (l : ℕ) (buf : Bytes) → 4 ≤ l → get_or buf 1 0 ≡ 126 → header_size l buf ≡ 4
unfolding header_size
flags_plain_long l buf le h = ground (arith, le, h)

flags_masked_short :
    (l : ℕ) (buf : Bytes)
    → 6 ≤ l
    → 128 ≤ get_or buf 1 0
    → get_or buf 1 0 < 253
    → header_size l buf ≡ 6
unfolding header_size
flags_masked_short l buf le h k = ground (arith, le, h, k)

flags_masked_long : (l : ℕ) (buf : Bytes) → 8 ≤ l → get_or buf 1 0 ≡ 254 → header_size l buf ≡ 8
unfolding header_size
flags_masked_long l buf le h = ground (arith, le, h)

short_lem : (n : ℕ) → n < 125 → websocket_header n ≡ 130 ∷ n ∷ []
unfolding websocket_header
short_lem n h = let small : ltb n 126 ≡ true = ground (arith, h) in rw small refl

long_lem :
    (n : ℕ)
    → 126 ≤ n
    → n < 65536
    → websocket_header n ≡ 130 ∷ 126 ∷ (shr n 8 % 256) ∷ (n % 256) ∷ []
unfolding websocket_header
long_lem n h k =
    let small : ltb n 126 ≡ false = ground (arith, h) in
    let middle : ltb n 65536 ≡ true = ground (arith, k) in rw (small, middle) refl

short_len :
    (n flags : ℕ)
    → n < 125
    → flags % 128 ≡ n
    → (wide long : ℕ)
    → (if flags % 128 == 127 then wide else if flags % 128 == 126 then long else flags % 128) ≡ n
short_len n flags h same wide long = ground (arith, h, same)

plain_short : (n : ℕ) → n < 125 → Opens (130 ∷ n ∷ []) n
unfolding header_len
plain_short n h = record {
  not_empty = omega arith;
  size = λ more. flags_plain_short _ _ (omega arith) h;
  op = refl;
  len = short_len n n h (omega (arith, h)) _ _;
}

plain_long : (n : ℕ) → 126 ≤ n → n < 65536 → Opens (130 ∷ 126 ∷ (shr n 8 % 256) ∷ (n % 256) ∷ []) n
unfolding header_len big_endian
plain_long n h k = record {
  not_empty = omega arith;
  size = λ more. flags_plain_long _ _ (omega arith) refl;
  op = refl;
  len = omega (arith, h, k);
}

masked_short : (n a b c d : ℕ) → n < 125 → Opens (130 ∷ (n + 128) ∷ a ∷ b ∷ c ∷ d ∷ []) n
unfolding header_len
masked_short n a b c d h = record {
  not_empty = omega arith;
  size = λ more. flags_masked_short _ _ (omega arith) (omega arith) (omega (arith, h));
  op = refl;
  len = short_len n (n + 128) h (omega (arith, h)) _ _;
}

masked_long :
    (n a b c d : ℕ)
    → 126 ≤ n
    → n < 65536
    → Opens (130 ∷ 254 ∷ (shr n 8 % 256) ∷ (n % 256) ∷ a ∷ b ∷ c ∷ d ∷ []) n
unfolding header_len big_endian
masked_long n a b c d h k = record {
  not_empty = omega arith;
  size = λ more. flags_masked_long _ _ (omega arith) refl;
  op = refl;
  len = omega (arith, h, k);
}

pub plain_header : (n : ℕ) → IsSafe n → Opens (websocket_header n) n
plain_header n (inl short) = rw (short_lem n short) (plain_short n short)
plain_header n (inr (low, high)) = rw (long_lem n low high) (plain_long n low high)

pub masked_header :
    (n a b c d : ℕ) → IsSafe n → Opens (add_mask (a ∷ b ∷ c ∷ d ∷ []) (websocket_header n)) n
masked_header n a b c d (inl short) = rw (short_lem n short) (masked_short n a b c d short)
masked_header n a b c d (inr (low, high)) =
    rw (long_lem n low high) (masked_long n a b c d low high)

-- What is read behind a header without a mask is left as it is; behind a mask it is unmasked.
pub strip_plain :
    (n : ℕ) (body : Bytes)
    → IsSafe n
    → strip_mask (start_packet (length (websocket_header n)) (websocket_header n)) body ≡ body
unfolding start_packet strip_mask
strip_plain n body (inl short) =
    let bare : leb 128 n ≡ false = ground (arith, short) in rw (short_lem n short, bare) refl
strip_plain n body (inr (low, high)) = rw (long_lem n low high) refl

pub strip_masked :
    (n a b c d : ℕ) (body : Bytes)
    → IsSafe n
    → (let header = add_mask (a ∷ b ∷ c ∷ d ∷ []) (websocket_header n) in
        strip_mask (start_packet (length header) header) body)
      ≡ unmask (a ∷ b ∷ c ∷ d ∷ []) 0 body
unfolding start_packet strip_mask
strip_masked n a b c d body (inl short) =
    let set : leb 128 (n + 128) ≡ true = ground arith in rw (short_lem n short, set) refl
strip_masked n a b c d body (inr (low, high)) = rw (long_lem n low high) refl
