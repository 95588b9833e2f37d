-- ===== src/Players/Places.antt =====
-- The place of a player after a pass.
use mcchost.Base.{
  ℕ, ◌-◌, ◌%◌, ◌^◌, ltb, if◌then◌else◌, false, ◌≤◌, ◌≡◌, ◌∙◌, refl, ap, Bool, true, not, ◌&&◌, ◌||◌,
  some, Bool-cases, inl, inr, arith,
}
use mcchost.Base.Int.{ℤ, pos, negsuc, int32, ◌+ℤ◌, ◌-ℤ◌, eq_ℤ, ltb_ℤ, pos_part, neg_part}
use mcchost.Packet.Config.{Config}
use mcchost.Packet.Send.{Posn, shifted, posn_kind}
use mcchost.Chat.Colour.{Bytes}
use mcchost.Players.View.{Place, place_of, signed8, read_entcoord, read_place, full_place, moved}
use mcchost.Packet.Encode.{byte, clamp_short}

step-ℤ : (a b : ℤ) → a +ℤ (b -ℤ a) ≡ b
unfolding ◌+ℤ◌ ◌-ℤ◌
step-ℤ (pos a) (pos b) = ground arith
step-ℤ (pos a) (negsuc b) = ground arith
step-ℤ (negsuc a) (pos b) = ground arith
step-ℤ (negsuc a) (negsuc b) = ground arith

abbrev is_far : ℤ → ℤ → Bool
is_far a b = ltb_ℤ (pos 127) (a -ℤ b) || ltb_ℤ (a -ℤ b) (negsuc 126)

near_parts : (a b : ℤ) → is_far a b ≡ false → (pos_part (b -ℤ a) ≤ 127) × (neg_part (b -ℤ a) ≤ 127)
unfolding ◌-ℤ◌
near_parts (pos a) (pos b) h = ground (arith, h)
near_parts (pos a) (negsuc b) h = ground (arith, h)
near_parts (negsuc a) (pos b) h = ground (arith, h)
near_parts (negsuc a) (negsuc b) h = ground (arith, h)

signed8-byte : (d : ℤ) → pos_part d ≤ 127 → neg_part d ≤ 127 → signed8 (byte d) ≡ d
unfolding signed8 byte
signed8-byte (pos n) h k = ground (arith, h)
signed8-byte (negsuc n) h k = ground (arith, k)

-- A difference in a byte, and the coordinate after it.
byte_step : (k a b : ℤ) → k ≡ a → is_far a b ≡ false → k +ℤ signed8 (byte (b -ℤ a)) ≡ b
byte_step k a b e near =
    let parts = near_parts a b near in
    ap (λ (d : ℤ). k +ℤ d) (signed8-byte (b -ℤ a) parts.0 parts.1)
    ∙ ap (λ (c : ℤ). c +ℤ (b -ℤ a)) e
    ∙ step-ℤ a b

eq_ℤ→≡ : (a b : ℤ) → eq_ℤ a b ≡ true → a ≡ b
eq_ℤ→≡ (pos a) (pos b) h = ground (arith, h)
eq_ℤ→≡ (pos a) (negsuc b) h = ground (arith, h)
eq_ℤ→≡ (negsuc a) (pos b) h = ground (arith, h)
eq_ℤ→≡ (negsuc a) (negsuc b) h = ground (arith, h)

place_eq :
    {a b : Place} → a.px ≡ b.px → a.py ≡ b.py → a.pz ≡ b.pz → a.ph ≡ b.ph → a.pv ≡ b.pv → a ≡ b
place_eq x y z h v = λ i. record { px = x i; py = y i; pz = z i; ph = h i; pv = v i }

-- From -`k` to `k` - 1.
abbrev within : ℕ → ℤ → Bool
within k v = ltb_ℤ v (pos k) && not (ltb_ℤ v (negsuc (k - 1)))

-- The numbers that the connection's packets hold without a loss: 16 bits, or 32 with
-- ExtEntityPositions, the height with 51 added; angles have a byte.
unfoldable pub fits : Config → Posn → Bool
fits cfg p =
    let k = if cfg.extn_extentityposn then 2 ^ 31 else 2 ^ 15 in
    within k p.x && within k (p.y +ℤ pos 51) && within k p.z && within 128 p.h && within 128 p.v

int32-within : (v : ℤ) → within (2 ^ 31) v ≡ true → int32 v ≡ v
unfolding int32
int32-within (pos n) h =
    let same : n % 2 ^ 32 ≡ n = ground (arith, h) in
    let small : ltb n (2 ^ 31) ≡ true = ground (arith, h) in rw (same, small) refl
int32-within (negsuc n) h =
    let same : n % 2 ^ 32 ≡ n = ground (arith, h) in
    let large : ltb (2 ^ 32 - 1 - n) (2 ^ 31) ≡ false = ground (arith, h) in
    let back : 2 ^ 32 - 1 - (2 ^ 32 - 1 - n) ≡ n = ground (arith, h) in rw (same, large, back) refl

clamp_within : (v : ℤ) → within (2 ^ 15) v ≡ true → clamp_short v ≡ v
unfolding clamp_short
clamp_within (pos n) h = ground (arith, h)
clamp_within (negsuc n) h = ground (arith, h)

angle_within : (v : ℤ) → within 128 v ≡ true → signed8 (byte v) ≡ v
unfolding signed8 byte
angle_within (pos n) h = ground (arith, h)
angle_within (negsuc n) h = ground (arith, h)

entcoord_within :
    (cfg : Config) (v : ℤ)
    → within (if cfg.extn_extentityposn then 2 ^ 31 else 2 ^ 15) v ≡ true
    → read_entcoord cfg v ≡ v
unfolding read_entcoord
entcoord_within cfg v h = elim (Bool-cases cfg.extn_extentityposn) [
  | inl wide ↦ rw wide (int32-within v (rw wide at h))
  | inr narrow ↦ rw narrow (clamp_within v (rw narrow at h))
]

down_51 : (v : ℤ) → v +ℤ pos 51 -ℤ pos 51 ≡ v
unfolding ◌+ℤ◌ ◌-ℤ◌
down_51 (pos n) = ground arith
down_51 (negsuc n) = ground arith

pub read_place-fits : (cfg : Config) (p : Posn) → fits cfg p ≡ true → read_place cfg p ≡ place_of p
unfolding read_place fits
read_place-fits cfg p h =
    place_eq (entcoord_within cfg p.x (ground (arith, h)))
      (ap (λ (v : ℤ). v -ℤ pos 51) (entcoord_within cfg (p.y +ℤ pos 51) (ground (arith, h)))
        ∙ down_51 p.y)
      (entcoord_within cfg p.z (ground (arith, h))) (angle_within p.h (ground (arith, h)))
      (angle_within p.v (ground (arith, h)))

module _ (cfg : Config) (text : Bytes → Bytes) (block_convert : ℕ → ℕ) where
  -- A move takes the client from the last place sent to the new one.
  pub moved-posn_kind :
      (old new : Posn) (at_ : Place)
      → full_place cfg text block_convert new ≡ place_of new
      → (old.valid ≡ true → at_ ≡ place_of old)
      → moved cfg text block_convert (posn_kind cfg text block_convert (some old) new) old new at_
        ≡ place_of new
  unfolding moved posn_kind full_place read_place
  moved-posn_kind old new at_ full e =
      let turn_h = ap (λ (w : Place). w.ph) full in
      let turn_v = ap (λ (w : Place). w.pv) full in
      let far = is_far in
      elim (Bool-cases (not old.valid)) [
        | inl invalid ↦ rw invalid full
        | inr valid ↦
            let e' = e (ground (arith, valid)) in
            let px : at_.px ≡ old.x = ap (λ (w : Place). w.px) e' in
            let py : at_.py ≡ old.y = ap (λ (w : Place). w.py) e' in
            let pz : at_.pz ≡ old.z = ap (λ (w : Place). w.pz) e' in
            let ph : at_.ph ≡ old.h = ap (λ (w : Place). w.ph) e' in
            let pv : at_.pv ≡ old.v = ap (λ (w : Place). w.pv) e' in
            elim (Bool-cases (eq_ℤ old.x new.x && eq_ℤ old.y new.y && eq_ℤ old.z new.z)) [
              | inl same ↦ elim (Bool-cases (not (eq_ℤ old.h new.h && eq_ℤ old.v new.v))) [
                | inl turned ↦
                    rw (valid, same, turned)
                      (place_eq (px ∙ eq_ℤ→≡ old.x new.x (ground (arith, same)))
                        (py ∙ eq_ℤ→≡ old.y new.y (ground (arith, same)))
                        (pz ∙ eq_ℤ→≡ old.z new.z (ground (arith, same))) turn_h turn_v)
                | inr still ↦
                    rw (valid, same, still)
                      (place_eq (px ∙ eq_ℤ→≡ old.x new.x (ground (arith, same)))
                        (py ∙ eq_ℤ→≡ old.y new.y (ground (arith, same)))
                        (pz ∙ eq_ℤ→≡ old.z new.z (ground (arith, same)))
                        (ph ∙ eq_ℤ→≡ old.h new.h (ground (arith, still)))
                        (pv ∙ eq_ℤ→≡ old.v new.v (ground (arith, still))))
              ]
              | inr moves ↦
                  elim (Bool-cases (far old.x new.x || far old.y new.y || far old.z new.z)) [
                    | inl far_ ↦ rw (valid, moves, far_) full
                    | inr near ↦ elim (Bool-cases (not (eq_ℤ old.h new.h && eq_ℤ old.v new.v))) [
                      | inl turned ↦
                          rw (valid, moves, near, turned)
                            (place_eq (byte_step at_.px old.x new.x px (ground (arith, near)))
                              (byte_step at_.py old.y new.y py (ground (arith, near)))
                              (byte_step at_.pz old.z new.z pz (ground (arith, near))) turn_h
                              turn_v)
                      | inr still ↦
                          rw (valid, moves, near, still)
                            (place_eq (byte_step at_.px old.x new.x px (ground (arith, near)))
                              (byte_step at_.py old.y new.y py (ground (arith, near)))
                              (byte_step at_.pz old.z new.z pz (ground (arith, near)))
                              (ph ∙ eq_ℤ→≡ old.h new.h (ground (arith, still)))
                              (pv ∙ eq_ℤ→≡ old.v new.v (ground (arith, still))))
                    ]
                  ]
            ]
      ]

  -- A client with CPE has the server's map where the server has it.
  pub full_place-fits :
      (p : Posn)
      → cfg.cpe_requested ≡ true
      → fits cfg p ≡ true
      → full_place cfg text block_convert p ≡ place_of p
  unfolding full_place shifted
  full_place-fits p cpe h = rw cpe (read_place-fits cfg p h)
