-- ===== src/Dates/Integers.antt =====
-- Sums, differences, products and 32-bit cuts of integers from 0 on.
use mcchost.Base.{ℕ, ◌+◌, ◌-◌, ◌*◌, ◌%◌, ◌^◌, ◌≤◌, ◌<◌, ◌≡◌, refl, ap, true, ltb, leb, arith}
use mcchost.Base.Int.{pos, sub_ℕ, int32, ◌+ℤ◌, ◌-ℤ◌, ◌*ℤ◌}

pub sub_ℕ-pos : (a b c : ℕ) → a ≡ c + b → sub_ℕ a b ≡ pos c
sub_ℕ-pos a b c h =
    let le : leb b a ≡ true = ground (arith, h) in
    let rest : a - b ≡ c = omega (arith, h) in rw le (ap pos rest)

pub add_pos : (a b : ℕ) → pos a +ℤ pos b ≡ pos (a + b)
unfolding ◌+ℤ◌
add_pos a b = sub_ℕ-pos (a + b) 0 (a + b) (omega arith)

pub sub_pos : (a b : ℕ) → b ≤ a → pos a -ℤ pos b ≡ pos (a - b)
unfolding ◌-ℤ◌
sub_pos a b h = sub_ℕ-pos (a + 0) (0 + b) (a - b) (omega (arith, h))

pub mul_pos : (a b : ℕ) → pos a *ℤ pos b ≡ pos (a * b)
unfolding ◌*ℤ◌
mul_pos a b = sub_ℕ-pos (a * b + 0) (a * 0 + 0 * b) (a * b) (grind arith)

pub int32_pos : (n : ℕ) → n < 2 ^ 31 → int32 (pos n) ≡ pos n
unfolding int32
int32_pos n h =
    let same : n % 2 ^ 32 ≡ n = omega (arith, h) in
    let small : ltb n (2 ^ 31) ≡ true = ground (arith, h) in rw (same, small) refl
