-- ===== src/Edit/Count.antt =====
-- How often each block stands in the array of a level.
use mcchost.Base.{
  ℕ, zero, suc, ◌+◌, ◌≤◌, ◌<◌, ◌≡◌, ◌≢◌, ◌∙◌, refl, sym, ap, List, [], ◌∷◌, ◌==◌, if◌then◌else◌,
  get_or, set, length, arith, get_or-set_ne,
}

-- How many places of the level hold the block.
unfoldable pub count : ℕ → List ℕ → ℕ
count v [] = 0
count v (b ∷ m) = (if b == v then 1 else 0) + count v m

abbrev pub one_if : ℕ → ℕ → ℕ
one_if b v = if b == v then 1 else 0

count-set :
    (v : ℕ) (m : List ℕ) (i b : ℕ)
    → i < length m
    → count v (set m i b) + one_if (get_or m i 0) v ≡ count v m + one_if b v
unfolding count
count-set v [] i b h = absurd (omega arith)
count-set v (x ∷ m) zero b h = omega arith
count-set v (x ∷ m) (suc i) b h = omega (arith, count-set v m i b (omega arith))

length-get_or : (m : List ℕ) (i : ℕ) → get_or m i 0 ≢ 0 → i < length m
length-get_or [] i h = absurd (h refl)
length-get_or (x ∷ m) zero h = omega arith
length-get_or (x ∷ m) (suc i) h = omega (arith, length-get_or m i h)

length-set_lem : (m : List ℕ) (i b : ℕ) → length (set m i b) ≡ length m
length-set_lem [] i b = refl
length-set_lem (x ∷ m) zero b = refl
length-set_lem (x ∷ m) (suc i) b = ap suc (length-set_lem m i b)

-- A block and the air at a lower place change places.
pub count_swap :
    (v : ℕ) (m : List ℕ) (i j b : ℕ)
    → i ≤ j
    → get_or m i 0 ≡ 0
    → get_or m j 0 ≡ b
    → b ≢ 0
    → count v (set (set m i b) j 0) ≡ count v m
count_swap v m i j b le air block solid =
    let inside : j < length m = length-get_or m j (λ e. solid (sym block ∙ e)) in
    let apart : i ≢ j = λ e. solid (sym block ∙ ap (λ k. get_or m k 0) (sym e) ∙ air) in
    omega (
      arith,
      count-set v m i b (omega arith),
      count-set v (set m i b) j 0 (omega (arith, length-set_lem m i b)),
      ap (λ k. one_if k v) air,
      ap (λ k. one_if k v) (get_or-set_ne m i j b 0 apart ∙ block),
    )

-- The level holds blocks that have a definition.
abbrev pub IsDefined : List ℕ → Type 0
IsDefined m = (i : ℕ) → get_or m i 0 < 1024

pub set-IsDefined : (m : List ℕ) (i b : ℕ) → b < 1024 → IsDefined m → IsDefined (set m i b)
set-IsDefined [] i b h d k = d k
set-IsDefined (x ∷ m) zero b h d zero = h
set-IsDefined (x ∷ m) zero b h d (suc k) = d (suc k)
set-IsDefined (x ∷ m) (suc i) b h d zero = d zero
set-IsDefined (x ∷ m) (suc i) b h d (suc k) = set-IsDefined m i b h (λ j. d (suc j)) k
