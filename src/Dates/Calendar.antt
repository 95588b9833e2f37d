-- ===== src/Dates/Calendar.antt =====
-- The calendar, month by month, and what `mktime_t` makes of it.
use mcchost.Base.{
  ℕ, zero, suc, ◌+◌, ◌-◌, ◌*◌, ◌/◌, ◌%◌, ◌^◌, ◌≤◌, ◌<◌, ◌≡◌, ◌∙◌, refl, sym, ap, ap₂, Bool, true,
  false, not, ◌&&◌, ◌||◌, ltb, ◌==◌, if◌then◌else◌, get_or, arith, Bool-cases, inl, inr,
}
use mcchost.Base.Int.{ℤ, pos, ◌+ℤ◌, ◌-ℤ◌, ◌*ℤ◌}
use mcchost.Dates.Integers.{add_pos, sub_pos, mul_pos, int32_pos}
use mcchost.Dates.{mdays, div_ℤ, mod_ℤ, is_ly, is_div_by, num_ly, month_days, mktime_t}

-- The Gregorian calendar: its leap years, the length of a month of a year, months counted from 0.
abbrev pub is_leap : ℕ → Bool
is_leap y = y % 4 == 0 && (not (y % 100 == 0) || y % 400 == 0)

unfoldable pub month_len : ℕ → ℕ → ℕ
month_len y m = if m == 1 && is_leap y then 29 else get_or mdays m 0

-- The days of the first `n` months from January 1970 on.
unfoldable pub days_before : ℕ → ℕ
unfolding month_len
days_before zero = 0
days_before (suc n) = days_before n + month_len (1970 + n / 12) (n % 12)

abbrev leaps : ℕ → ℕ
leaps k = (k + 1) / 4 + (k + 369) / 400 - (k + 69) / 100

abbrev one_if : Bool → ℕ
one_if b = if b then 1 else 0

fourth : (k : ℕ) → (suc k + 1) / 4 ≡ (k + 1) / 4 + one_if ((1970 + k) % 4 == 0)
fourth k = ground arith

hundredth : (k : ℕ) → (suc k + 69) / 100 ≡ (k + 69) / 100 + one_if ((1970 + k) % 100 == 0)
hundredth k = ground arith

four_hundredth : (k : ℕ) → (suc k + 369) / 400 ≡ (k + 369) / 400 + one_if ((1970 + k) % 400 == 0)
four_hundredth k = ground arith

leaps-suc : (k : ℕ) → leaps (suc k) ≡ leaps k + one_if (is_leap (1970 + k))
leaps-suc k = ground (arith, fourth k, hundredth k, four_hundredth k)

month_step :
    (a : ℕ) (leap : Bool) (m : ℕ)
    → m < 11
    → a + month_days (suc m) + one_if (ltb 1 (suc m) && leap)
      ≡ a
        + month_days m
        + one_if (ltb 1 m && leap)
        + (if m == 1 && leap then 29 else get_or mdays m 0)
unfolding month_days
month_step a true zero h = omega arith
month_step a true (suc zero) h = omega arith
month_step a true (suc (suc zero)) h = omega arith
month_step a true (suc (suc (suc zero))) h = omega arith
month_step a true (suc (suc (suc (suc zero)))) h = omega arith
month_step a true (suc (suc (suc (suc (suc zero))))) h = omega arith
month_step a true (suc (suc (suc (suc (suc (suc zero)))))) h = omega arith
month_step a true (suc (suc (suc (suc (suc (suc (suc zero))))))) h = omega arith
month_step a true (suc (suc (suc (suc (suc (suc (suc (suc zero)))))))) h = omega arith
month_step a true (suc (suc (suc (suc (suc (suc (suc (suc (suc zero))))))))) h = omega arith
month_step a true (suc (suc (suc (suc (suc (suc (suc (suc (suc (suc zero)))))))))) h = omega arith
month_step a true (suc (suc (suc (suc (suc (suc (suc (suc (suc (suc (suc m))))))))))) h =
    absurd (omega (arith, h))
month_step a false zero h = omega arith
month_step a false (suc zero) h = omega arith
month_step a false (suc (suc zero)) h = omega arith
month_step a false (suc (suc (suc zero))) h = omega arith
month_step a false (suc (suc (suc (suc zero)))) h = omega arith
month_step a false (suc (suc (suc (suc (suc zero))))) h = omega arith
month_step a false (suc (suc (suc (suc (suc (suc zero)))))) h = omega arith
month_step a false (suc (suc (suc (suc (suc (suc (suc zero))))))) h = omega arith
month_step a false (suc (suc (suc (suc (suc (suc (suc (suc zero)))))))) h = omega arith
month_step a false (suc (suc (suc (suc (suc (suc (suc (suc (suc zero))))))))) h = omega arith
month_step a false (suc (suc (suc (suc (suc (suc (suc (suc (suc (suc zero)))))))))) h = omega arith
month_step a false (suc (suc (suc (suc (suc (suc (suc (suc (suc (suc (suc m))))))))))) h =
    absurd (omega (arith, h))

-- The days up to a month of the year 1970 + `k`, in one expression.
unfoldable closed : ℕ → ℕ → ℕ
unfolding month_days
closed k m = 365 * k + leaps k + month_days m + one_if (ltb 1 m && is_leap (1970 + k))

closed_lem :
    (k m : ℕ)
    → closed k m ≡ 365 * k + leaps k + month_days m + one_if (ltb 1 m && is_leap (1970 + k))
unfolding closed
closed_lem k m = refl

closed_month : (k m : ℕ) → m < 11 → closed k (suc m) ≡ closed k m + month_len (1970 + k) m
unfolding closed month_len
closed_month k m h = month_step (365 * k + leaps k) (is_leap (1970 + k)) m h

closed_year : (k : ℕ) → closed (suc k) 0 ≡ closed k 11 + month_len (1970 + k) 11
unfolding closed month_len month_days
closed_year k = omega (arith, leaps-suc k)

days_before-closed : (n : ℕ) → days_before n ≡ closed (n / 12) (n % 12)
unfolding days_before
days_before-closed zero = days_before-zero
  where
    days_before-zero : 0 ≡ closed 0 0
    days_before-zero = unfold closed in refl
days_before-closed (suc n) = elim (Bool-cases (ltb (n % 12) 11)) [
  | inl within ↦
      let year : suc n / 12 ≡ n / 12 = ground (arith, within) in
      let month : suc n % 12 ≡ suc (n % 12) = ground (arith, within) in
      ap (λ d. d + month_len (1970 + n / 12) (n % 12)) (days_before-closed n)
      ∙ sym (closed_month (n / 12) (n % 12) (ground (arith, within)))
      ∙ sym (ap₂ closed year month)
  | inr last ↦
      let here : n % 12 ≡ 11 = ground (arith, last) in
      let year : suc n / 12 ≡ suc (n / 12) = omega (arith, here) in
      let month : suc n % 12 ≡ 0 = omega (arith, here) in
      ap₂ (λ d m. d + month_len (1970 + n / 12) m)
        (days_before-closed n ∙ ap (closed (n / 12)) here) here
      ∙ sym (closed_year (n / 12))
      ∙ sym (ap₂ closed year month)
]

num_ly_pos : (k : ℕ) → num_ly (pos (1970 + k)) ≡ pos (leaps k)
unfolding num_ly div_ℤ
num_ly_pos k =
    let a = (1970 + k - 1969) / 4 in
    let b = (1970 + k - 1901) / 100 in
    let c = (1970 + k - 1601) / 400 in
    let more : b ≤ a = omega arith in
    let all : a - b + c ≡ leaps k = omega arith in
    rw
      (
        sub_pos (1970 + k) 1969 (omega arith),
        sub_pos (1970 + k) 1901 (omega arith),
        sub_pos (1970 + k) 1601 (omega arith),
      )
      (ap (λ d. d +ℤ pos c) (sub_pos a b more) ∙ add_pos (a - b) c ∙ ap pos all)

years_pos :
    (a b : ℕ)
    → pos (70 + a) +ℤ pos 1900 +ℤ div_ℤ (pos b -ℤ pos (b % 12)) 12 ≡ pos (1970 + (a + b / 12))
unfolding div_ℤ
years_pos a b =
    let rest : (b - b % 12) / 12 ≡ b / 12 = omega arith in
    let all : 70 + a + 1900 + (b - b % 12) / 12 ≡ 1970 + (a + b / 12) = omega (arith, rest) in
    rw (sub_pos b (b % 12) (omega arith), add_pos (70 + a) 1900)
      (add_pos (70 + a + 1900) ((b - b % 12) / 12) ∙ ap pos all)

-- A month has 31 days at the most.
month_len_max : (y m : ℕ) → month_len y m ≤ 31
unfolding month_len
month_len_max y m = elim (Bool-cases (m == 1 && is_leap y)) [
  | inl leap ↦ rw leap (omega arith)
  | inr plain ↦ rw plain (mdays_max m)
]
  where
    mdays_max : (m : ℕ) → get_or mdays m 0 ≤ 31
    mdays_max m = ground arith

pub days_before_max : (n : ℕ) → days_before n ≤ 31 * n
unfolding days_before
days_before_max zero = omega arith
days_before_max (suc n) = omega (arith, days_before_max n, month_len_max (1970 + n / 12) (n % 12))

-- Where `mktime_t` counts fewer than 2 ^ 31 days, `int` overflows nowhere, and it counts the months
-- of the calendar, from 1970 on, for any day, hour, minute and second, also where the month number is
-- past the end of the year.
pub mktime_t-days_before :
    (a b d h : ℕ) (mi s : ℤ)
    → days_before (12 * a + b) + d < 2 ^ 31
    → mktime_t (record {
      tm_year = pos (70 + a);
      tm_mon = pos b;
      tm_mday = pos (suc d);
      tm_hour = pos h;
      tm_min = mi;
      tm_sec = s;
    })
      ≡ (pos (((days_before (12 * a + b) + d) * 24 + h) * 60) +ℤ mi) *ℤ pos 60 +ℤ s
unfolding mktime_t mod_ℤ is_ly is_div_by
mktime_t-days_before a b d h mi s fits =
    let k = a + b / 12 in
    let m = b % 12 in
    let l = one_if (ltb 1 m && is_leap (1970 + k)) in
    let sum = suc d - 1 + (l + month_days m) + (365 * (1970 + k - 1970) + leaps k) in
    let year : (12 * a + b) / 12 ≡ k = omega arith in
    let month : (12 * a + b) % 12 ≡ m = omega arith in
    let before : days_before (12 * a + b) ≡ closed k m =
      days_before-closed (12 * a + b) ∙ ap₂ closed year month in
    let days : sum ≡ days_before (12 * a + b) + d = omega (arith, closed_lem k m, before) in
    let near : 1970 + k < 2 ^ 31 = omega (arith, closed_lem k m, before, fits) in
    rw
      (
        years_pos a b,
        int32_pos (1970 + k) near,
        sub_pos (suc d) 1 (omega arith),
        sub_pos (1970 + k) 1970 (omega arith),
        mul_pos 365 (1970 + k - 1970),
        num_ly_pos k,
        add_pos (365 * (1970 + k - 1970)) (leaps k),
        add_pos (suc d - 1) (l + month_days m),
        add_pos (suc d - 1 + (l + month_days m)) (365 * (1970 + k - 1970) + leaps k),
        int32_pos sum (omega (arith, days, fits)),
        mul_pos sum 24,
        add_pos (sum * 24) h,
        mul_pos (sum * 24 + h) 60,
      )
      (ap (λ n. (pos ((n * 24 + h) * 60) +ℤ mi) *ℤ pos 60 +ℤ s) days)
