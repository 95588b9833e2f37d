-- ===== src/Spam.antt =====
-- antispam.c: how often a player may do something. Times are milliseconds since 1970 in 64 bits, whose
-- range no sum leaves; the products of two `int32_t` are cut to 32 bits. The settings are from 0 on.
use mcchost.Base.{
  ℕ, ◌+◌, ◌-◌, ◌*◌, ◌/◌, Bool, true, false, not, ◌&&◌, ◌||◌, List, [], ◌∷◌, suc, ltb, leb, ◌==◌,
  if◌then◌else◌,
}
use mcchost.Base.Int.{ℤ, pos, negsuc, int32}
use mcchost.Dates.{div_ℤ}
pub mod Deadline
pub mod Rate

-- `aspam_t`.
pub record Counter : Type 0 where
  pub ms_start : ℕ
  pub banned_til : ℕ
  pub events : ℕ
  pub cheater : ℕ
  pub ban_flg : Bool

-- The limits, and whether the player is trusted or has no client slot.
pub record Rules : Type 0 where
  pub spam_count : ℕ
  pub spam_time : ℕ
  pub spam_ban : ℕ
  pub exempt : Bool

-- A time moved on or back. A 32-bit number moves no time of today before 1970.
abbrev pub moved_time : ℕ → ℤ → ℕ
moved_time t (pos n) = t + n
moved_time t (negsuc n) = t - suc n

module _ (r : Rules) where
  -- `spam_time * 1000`.
  unfoldable pub window_ms : ℤ
  window_ms = int32 (pos (r.spam_time * 1000))

  unfoldable pub ms_deadline : Counter → ℕ
  unfolding div_ℤ
  ms_deadline c =
      moved_time c.ms_start (div_ℤ (int32 (pos (c.events * (r.spam_time * 1000)))) r.spam_count)

  -- How many events of the window the deadline is ahead; a negative window makes it no more than 0.
  unfoldable pub over : ℕ → Counter → ℕ
  unfolding ms_deadline window_ms
  over ms_now c = elim window_ms [
    | pos n ↦ (ms_deadline c - ms_now) * r.spam_count / n
    | negsuc n ↦ 0
  ]

  abbrev pub is_banned : ℕ → Counter → Bool
  is_banned ms_now c = not (c.banned_til == 0) && ltb (ms_now / 1000) c.banned_til

  -- A ban that has ended is forgotten.
  unfoldable pub lift_ban : ℕ → Counter → Counter
  lift_ban ms_now c = if is_banned ms_now c then c else record c { banned_til = 0 }

  unfoldable pub restart : ℕ → Counter → Counter
  restart ms_now c = record c {
    ms_start = ms_now;
    events = 1;
    cheater = 0;
    ban_flg = is_banned ms_now c && c.ban_flg;
  }

  -- One more event, with a turn of the window where it is full.
  unfoldable pub count_event : ℕ → Counter → Counter
  unfolding over window_ms
  count_event ms_now c =
      if leb r.spam_count c.events
      then record c {
        events = c.events - r.spam_count + 1;
        ms_start = moved_time c.ms_start window_ms;
        cheater = if ltb 3 (over ms_now c) then c.cheater + 1 else c.cheater;
      }
      else record c { events = c.events + 1 }

  unfoldable pub ban : ℕ → ℕ → Counter → Counter
  ban ms_now deadline c =
      let til =
        if c.banned_til == 0 && ltb 0 r.spam_ban
        then ms_now / 1000 + r.spam_ban
        else c.banned_til in
      record c {
        banned_til = if til == 0 || ltb til (deadline / 1000) then deadline / 1000 else til;
      }

  -- The answer is whether the event comes too soon.
  unfoldable pub add_antispam_event : ℕ → Counter → Bool × Counter
  unfolding window_ms
  add_antispam_event ms_now counter =
      let c = lift_ban ms_now counter in
      let deadline = ms_deadline c in
      let more = count_event ms_now c in
      if r.spam_count == 0 || r.exempt
      then (false, counter)
      else if c.ms_start == 0 || leb deadline ms_now
      then (is_banned ms_now c, restart ms_now c)
      else if ltb deadline (moved_time ms_now window_ms) && ltb more.cheater 3
      then (is_banned ms_now c, more)
      else (true, ban ms_now deadline more)

  -- The counter after events at some times, and whether one of them came too soon.
  unfoldable pub after_events : List ℕ → Counter → Counter
  after_events [] c = c
  after_events (t ∷ ts) c = after_events ts (add_antispam_event t c).1

  unfoldable pub any_too_soon : List ℕ → Counter → Bool
  any_too_soon [] c = false
  any_too_soon (t ∷ ts) c = (add_antispam_event t c).0 || any_too_soon ts (add_antispam_event t c).1
