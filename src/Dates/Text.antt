-- ===== src/Dates/Text.antt =====
-- Dates as text, the way `time_t_to_iso8601` prints them.
use mcchost.Base.{
  ℕ, suc, ◌+◌, ◌-◌, ◌*◌, ◌^◌, ◌/◌, ◌%◌, ◌≤◌, ◌<◌, ◌≡◌, ◌∙◌, refl, ap, ap₂, List, [], ◌∷◌, ◌++◌,
  arith,
}
use mcchost.Base.Int.{ℤ, pos, ◌+ℤ◌, ◌-ℤ◌}
use mcchost.Dates.{Tm, isodt, has_separators, field, timezone, sliced, mktime_t, iso8601_to_time_t}
use mcchost.Dates.Integers.{add_pos, sub_pos, mul_pos}
use mcchost.Dates.Calendar.{days_before, days_before_max, mktime_t-days_before}

abbrev pub two_digits : ℕ → List ℕ
two_digits n = (48 + n / 10) ∷ (48 + n % 10) ∷ []

abbrev pub four_digits : ℕ → List ℕ
four_digits n = (48 + n / 1000) ∷ (48 + n / 100 % 10) ∷ (48 + n / 10 % 10) ∷ (48 + n % 10) ∷ []

-- `atoi` reads decimal digits.
pub record Reads (atoi : List ℕ → ℤ) : Type 0 where
  pub two : (n : ℕ) → n < 100 → atoi (two_digits n) ≡ pos n
  pub four : (n : ℕ) → n < 10000 → atoi (four_digits n) ≡ pos n

abbrev pub stamp : ℕ → ℕ → ℕ → ℕ → ℕ → ℕ → List ℕ
stamp y mo d h mi s =
    four_digits y
    ++ b'-' ∷ two_digits mo
    ++ b'-' ∷ two_digits d
    ++ b'T' ∷ two_digits h
    ++ b':' ∷ two_digits mi
    ++ b':' ∷ two_digits s
    ++ b'Z' ∷ []

abbrev tm_of : ℤ → ℤ → ℤ → ℤ → ℤ → ℤ → Tm
tm_of y mo d h mi s = record {
  tm_year = y;
  tm_mon = mo;
  tm_mday = d;
  tm_hour = h;
  tm_min = mi;
  tm_sec = s;
}

stamp_slices :
    (atoi : List ℕ → ℤ) (y mo d h mi s : ℕ)
    → iso8601_to_time_t atoi (stamp y mo d h mi s)
      ≡ mktime_t (
          tm_of
            (atoi (four_digits y) -ℤ pos 1900)
            (atoi (two_digits mo) -ℤ pos 1)
            (atoi (two_digits d))
            (atoi (two_digits h))
            (atoi (two_digits mi) +ℤ pos 0)
            (atoi (two_digits s)))
unfolding iso8601_to_time_t isodt has_separators timezone sliced field
stamp_slices atoi y mo d h mi s = refl

-- `iso8601_to_time_t` reads a date of four digits for the year and two for the rest as the seconds
-- since the start of 1970 in the calendar.
pub iso8601_to_time_t-stamp :
    (atoi : List ℕ → ℤ) (y mo d h mi s : ℕ)
    → Reads atoi
    → 1970 ≤ y
    → y < 10000
    → 1 ≤ mo
    → mo < 100
    → 1 ≤ d
    → d < 100
    → h < 100
    → mi < 100
    → s < 100
    → iso8601_to_time_t atoi (stamp y mo d h mi s)
      ≡ pos ((((days_before (12 * (y - 1970) + (mo - 1)) + (d - 1)) * 24 + h) * 60 + mi) * 60 + s)
iso8601_to_time_t-stamp atoi y mo d h mi s r y1 y2 mo1 mo2 d1 d2 h2 mi2 s2 =
    let n = (days_before (12 * (y - 1970) + (mo - 1)) + (d - 1)) * 24 + h in
    let year : y - 1900 ≡ 70 + (y - 1970) = omega (arith, y1) in
    let day : d ≡ suc (d - 1) = omega (arith, d1) in
    let minute : mi + 0 ≡ mi = omega arith in
    let bound = days_before_max (12 * (y - 1970) + (mo - 1)) in
    let fits : days_before (12 * (y - 1970) + (mo - 1)) + (d - 1) < 2 ^ 31 =
      omega (arith, bound, y2, mo2, d2) in
    stamp_slices atoi y mo d h mi s
    ∙ rw
        (
          r.four y y2,
          r.two mo mo2,
          r.two d d2,
          r.two h h2,
          r.two mi mi2,
          r.two s s2,
          sub_pos y 1900 (omega (arith, y1)),
          sub_pos mo 1 mo1,
          add_pos mi 0,
        )
        (ap₂ (λ a b. mktime_t (tm_of (pos a) (pos (mo - 1)) (pos b) (pos h) (pos (mi + 0)) (pos s)))
          year day)
    ∙ mktime_t-days_before (y - 1970) (mo - 1) (d - 1) h (pos (mi + 0)) (pos s) fits
    ∙ rw (add_pos (n * 60) (mi + 0), mul_pos (n * 60 + (mi + 0)) 60)
        (add_pos ((n * 60 + (mi + 0)) * 60) s ∙ ap (λ m. pos ((n * 60 + m) * 60 + s)) minute)
