-- ===== src/Websocket/Mask.antt =====
-- A mask that is put on twice is off.
use mcchost.Base.{
  ◌∙◌, if◌then◌else◌, false, Bool-cases, inl, inr, ℕ, zero, suc, ◌+◌, ◌%◌, ◌<◌, ◌≡◌, refl, ap, ap₂,
  Bool, true, [], ◌∷◌, ◌==◌, ==_iff, arith, get_or, length,
}
use Prim.Native.Nat.{bit_xor}
use mcchost.Websocket.{Bytes, unmask}

-- Whether a test holds for each byte below `k`.
every : (ℕ → Bool) → ℕ → Bool
every test zero = true
every test (suc k) = if test k then every test k else false

every-test : (test : ℕ → Bool) (k x : ℕ) → x < k → every test k ≡ true → test x ≡ true
unfolding every
every-test test zero x inside h = absurd (omega (arith, inside))
every-test test (suc k) x inside h = elim (Bool-cases (test k)) [
  | inr fails ↦ absurd (ground (arith, h, fails))
  | inl holds ↦
      let before : every test k ≡ true = ground (arith, h, holds) in
      elim (Bool-cases (x == k)) [
        | inl last ↦ ap test ((==_iff x k).0 last) ∙ holds
        | inr other ↦ every-test test k x (ground (arith, other, inside)) before
      ]
]

abbrev comes_back : ℕ → ℕ → Bool
comes_back x y = bit_xor (bit_xor x y) y == x

every-comes_back : every (λ y. every (λ x. comes_back x y) 256) 256 ≡ true
unfolding every
every-comes_back = refl

bit_xor_twice : (x y : ℕ) → x < 256 → y < 256 → bit_xor (bit_xor x y) y ≡ x
bit_xor_twice x y hx hy =
    let column = every-test (λ y. every (λ x. comes_back x y) 256) 256 y hy every-comes_back in
    (==_iff _ x).0 (every-test (λ x. comes_back x y) 256 x hx column)

-- Bytes that each are below 256.
abbrev pub AreBytes : Bytes → Type 0
AreBytes [] = Unit
AreBytes (b ∷ bs) = (b < 256) × AreBytes bs

-- A mask of four bytes.
pub record IsMask (mask : Bytes) : Type 0 where
  pub below : (i : ℕ) → get_or mask i 0 < 256

pub unmask_twice :
    (mask bs : Bytes) (id : ℕ) → IsMask mask → AreBytes bs → unmask mask id (unmask mask id bs) ≡ bs
unfolding unmask
unmask_twice mask [] id m h = refl
unmask_twice mask (b ∷ bs) id m h =
    ap₂ ◌∷◌ (bit_xor_twice b (get_or mask id 0) h.0 (m.below id))
      (unmask_twice mask bs ((id + 1) % 4) m h.1)

pub length-unmask : (mask bs : Bytes) (id : ℕ) → length (unmask mask id bs) ≡ length bs
unfolding unmask
length-unmask mask [] id = refl
length-unmask mask (b ∷ bs) id = ap suc (length-unmask mask bs ((id + 1) % 4))
