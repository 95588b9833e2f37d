-- ===== src/Dates.antt =====
-- mktime_t.c: `mktime_t`, and `iso8601_to_time_t`, which reads a date for it.
use mcchost.Base.{
  ℕ, zero, suc, ◌+◌, ◌-◌, ◌*◌, ◌/◌, ◌%◌, Bool, not, ◌&&◌, ◌||◌, List, [], ◌∷◌, ◌++◌, ltb, leb, ◌==◌,
  if◌then◌else◌, get_or, take, drop, length, replicate, Option, none, some,
}
use mcchost.Base.Int.{
  ℤ, pos, negsuc, pos_part, neg_part, sub_ℕ, int32, ◌+ℤ◌, ◌-ℤ◌, ◌*ℤ◌, eq_ℤ, ltb_ℤ,
}
pub mod Integers
pub mod Calendar
pub mod Text

-- The fields of `struct tm` that count, each an `int`.
pub record Tm : Type 0 where
  pub tm_year : ℤ
  pub tm_mon : ℤ
  pub tm_mday : ℤ
  pub tm_hour : ℤ
  pub tm_min : ℤ
  pub tm_sec : ℤ

abbrev pub mdays : List ℕ
mdays = 31 ∷ 28 ∷ 31 ∷ 30 ∷ 31 ∷ 30 ∷ 31 ∷ 31 ∷ 30 ∷ 31 ∷ 30 ∷ 31 ∷ []

-- Division by a number above 0, as C does it: towards 0.
unfoldable pub div_ℤ : ℤ → ℕ → ℤ
div_ℤ (pos n) k = pos (n / k)
div_ℤ (negsuc n) k = sub_ℕ 0 (suc n / k)

-- `x % k` with `k` added where it is negative.
unfoldable pub mod_ℤ : ℤ → ℕ → ℕ
mod_ℤ (pos n) k = n % k
mod_ℤ (negsuc n) k = if suc n % k == 0 then 0 else k - suc n % k

unfoldable pub is_div_by : ℤ → ℕ → Bool
unfolding mod_ℤ
is_div_by y n = mod_ℤ y n == 0

unfoldable pub is_ly : ℤ → Bool
unfolding is_div_by
is_ly y = is_div_by y 4 && (not (is_div_by y 100) || is_div_by y 400)

unfoldable pub num_ly : ℤ → ℤ
unfolding div_ℤ
num_ly y = div_ℤ (y -ℤ pos 1969) 4 -ℤ div_ℤ (y -ℤ pos 1901) 100 +ℤ div_ℤ (y -ℤ pos 1601) 400

-- The loop over the months of the year.
unfoldable pub month_days : ℕ → ℕ
month_days zero = 0
month_days (suc m) = get_or mdays m 0 + month_days m

-- `years` and `days` are `int`s, cut to 32 bits where they are computed. `time_t` has 64 bits, which
-- the last line never leaves: `days` and the fields that it adds have 32.
unfoldable pub mktime_t : Tm → ℤ
mktime_t tm =
    let mon = mod_ℤ tm.tm_mon 12 in
    let years = int32 (tm.tm_year +ℤ pos 1900 +ℤ div_ℤ (tm.tm_mon -ℤ pos mon) 12) in
    let leap_day = if ltb 1 mon && is_ly years then 1 else 0 in
    let days = int32 (
      tm.tm_mday
      -ℤ pos 1
      +ℤ pos (leap_day + month_days mon)
      +ℤ (pos 365 *ℤ (years -ℤ pos 1970) +ℤ num_ly years)) in
    ((days *ℤ pos 24 +ℤ tm.tm_hour) *ℤ pos 60 +ℤ tm.tm_min) *ℤ pos 60 +ℤ tm.tm_sec

-- The array `isodt` after `strcpy`.
unfoldable pub isodt : List ℕ → List ℕ
isodt t = t ++ 0 ∷ drop (suc (length t)) (replicate 25 b'.' ++ b'*' ∷ replicate 6 0)

unfoldable pub has_separators : List ℕ → Bool
has_separators d =
    (get_or d 10 0 == b' ' || get_or d 10 0 == b't' || get_or d 10 0 == b'T')
    && get_or d 4 0 == b'-'
    && get_or d 7 0 == b'-'
    && get_or d 13 0 == b':'
    && get_or d 16 0 == b':'

-- `atoi` of the standard library reads the digits of a field.
module _ (atoi : List ℕ → ℤ) where
  unfoldable pub field : List ℕ → ℕ → ℕ → ℤ
  field d i n = atoi (take n (drop i d))

  -- The minutes to add for the timezone, or nothing if it is malformed.
  unfoldable pub timezone : List ℕ → Option ℤ
  unfolding field
  timezone d =
      let c = get_or d 19 0 in
      let tz = field d 23 2 +ℤ pos 60 *ℤ field d 20 2 in
      if c == 0 || c == b'z' || c == b'Z'
      then some (pos 0)
      else if not (c == b'+' || c == b'-')
          || not (get_or d 22 0 == b':')
          || not (get_or d 25 0 == 0)
      then none
      else some (if c == b'+' then pos 0 -ℤ tz else tz)

  unfoldable pub sliced : List ℕ → ℤ → Tm
  unfolding field
  sliced d tz = record {
    tm_year = field d 0 4 -ℤ pos 1900;
    tm_mon = field d 5 2 -ℤ pos 1;
    tm_mday = field d 8 2;
    tm_hour = field d 11 2;
    tm_min = field d 14 2 +ℤ tz;
    tm_sec = field d 17 2;
  }

  unfoldable pub iso8601_to_time_t : List ℕ → ℤ
  unfolding isodt has_separators timezone sliced
  iso8601_to_time_t t =
      let d = isodt t in
      if ltb (length t) 19 || ltb 30 (length t) || not (has_separators d)
      then pos 0
      else elim (timezone d) [ none ↦ pos 0 | some tz ↦ mktime_t (sliced d tz) ]
