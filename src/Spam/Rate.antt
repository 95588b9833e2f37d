-- ===== src/Spam/Rate.antt =====
-- Who stays below the rate is never refused, and nobody gets far above it.
use mcchost.Base.{
  ℕ, suc, ◌+◌, ◌*◌, ◌/◌, ◌^◌, ◌≤◌, ◌<◌, ◌≡◌, refl, ap, Bool, true, false, ◌&&◌, ◌||◌, List, [], ◌∷◌,
  ltb, leb, ◌==◌, length, arith, Bool-cases, inl, inr,
}
use mcchost.Spam.Deadline.{
  pace, plain_deadline, ms_deadline_max, ms_deadline-plain_deadline, window_ms-pos, guard,
  lift_ban-ms_deadline, lift_ban-ms_start, add_antispam_event-Later,
}
use mcchost.Spam.{
  Counter, Rules, window_ms, moved_time, ms_deadline, is_banned, lift_ban, restart, count_event,
  add_antispam_event, after_events, any_too_soon,
}

-- The times of events are after the start of 1970.
abbrev pub AllPositive : List ℕ → Type 0
AllPositive [] = Unit
AllPositive (t ∷ ts) = (0 < t) × AllPositive ts

module _ (r : Rules) (some_allowed : 0 < r.spam_count) (counted : r.exempt ≡ false)
    (in_range : r.spam_count * (r.spam_time * 1000) < 2 ^ 31) where
  -- Every further event puts the deadline off again, whatever its answer.
  record Off (due : ℕ) (c : Counter) : Type 0 where
    started : 0 < c.ms_start
    few : c.events ≤ r.spam_count
    off : due ≤ plain_deadline r c

  after_events-Off :
      (ts : List ℕ) (c : Counter)
      → AllPositive ts
      → 0 < c.ms_start
      → c.events ≤ r.spam_count
      → Off (plain_deadline r c + length ts * pace r) (after_events r ts c)
  unfolding after_events
  after_events-Off [] c p s few = record { started = s; few = few; off = omega arith }
  after_events-Off (t ∷ ts) c p s few =
      let c' = (add_antispam_event r t c).1 in
      let step =
        add_antispam_event-Later r some_allowed counted in_range (plain_deadline r c) t c p.0 few
          (λ none. absurd (omega (arith, none, s))) (omega arith) in
      let rest = after_events-Off ts c' p.1 step.started step.few in
      let turns : suc (length ts) * pace r ≡ pace r + length ts * pace r = grind arith in
      record {
        started = rest.started;
        few = rest.few;
        off = omega (arith, rest.off, step.from_due, turns);
      }

  accepted :
      (u : ℕ) (counter : Counter)
      → 0 < counter.ms_start
      → (add_antispam_event r u counter).0 ≡ false
      → ms_deadline r counter ≤ u + r.spam_time * 1000
  unfolding add_antispam_event
  accepted u counter s h =
      let c = lift_ban r u counter in
      let same = lift_ban-ms_deadline r u counter in
      let start = lift_ban-ms_start r u counter in
      let span : moved_time u (window_ms r) ≡ u + r.spam_time * 1000 =
        rw (window_ms-pos r some_allowed counted in_range) refl in
      elim (Bool-cases (c.ms_start == 0 || leb (ms_deadline r c) u)) [
        | inl resets ↦ ground (arith, resets, start, s, same)
        | inr runs ↦
            elim (Bool-cases (
              ltb (ms_deadline r c) (moved_time u (window_ms r))
              && ltb (count_event r u c).cheater 3)) [
                | inl passes ↦ ground (arith, passes, same, span)
                | inr spams ↦
                    let refused : (add_antispam_event r u counter).0 ≡ true =
                      rw (guard r some_allowed counted, runs, spams) refl in
                    absurd (ground (arith, refused, h))
              ]
      ]

  -- The limit is on, its milliseconds for all of its events keep to an `int32_t`, and the counter
  -- holds no more events than the limit, as a new one does and as every event leaves it: if an event
  -- is let through after others, the others and it are no more than the time from the first on allows
  -- at the pace, with one `spam_time` to spare.
  pub add_antispam_event_rate :
      (t : ℕ) (ts : List ℕ) (u : ℕ) (c : Counter)
      → 0 < t
      → AllPositive ts
      → c.events ≤ r.spam_count
      → (add_antispam_event r u (after_events r (t ∷ ts) c)).0 ≡ false
      → t + suc (length ts) * pace r ≤ u + r.spam_time * 1000
  unfolding after_events
  add_antispam_event_rate t ts u c pt pts few h =
      let first =
        add_antispam_event-Later r some_allowed counted in_range 0 t c pt few (λ none. refl)
          (omega arith) in
      let rest = after_events-Off ts (add_antispam_event r t c).1 pts first.started first.few in
      let last = after_events r ts (add_antispam_event r t c).1 in
      let exact = ms_deadline-plain_deadline r some_allowed counted in_range last rest.few in
      let turns : suc (length ts) * pace r ≡ pace r + length ts * pace r = grind arith in
      omega (arith, accepted u last rest.started h, exact, rest.off, first.from_now, turns)

module _ (r : Rules) (some_allowed : 0 < r.spam_count) (counted : r.exempt ≡ false) where
  -- The first event at `from` at the earliest, and then no two nearer than the pace.
  abbrev pub Spaced : ℕ → List ℕ → Type 0
  Spaced from [] = Unit
  Spaced from (t ∷ ts) = (from ≤ t) × Spaced (t + pace r) ts

  record Clear (t : ℕ) (e : Bool × Counter) : Type 0 where
    allowed : e.0 ≡ false
    unbanned : e.1.banned_til ≡ 0
    next : ms_deadline r e.1 ≤ t + pace r

  restart-Clear :
      (t : ℕ) (c : Counter) → c.banned_til ≡ 0 → Clear t (is_banned r t c, restart r t c)
  unfolding restart
  restart-Clear t c free =
      let one : 1 * (r.spam_time * 1000) ≡ r.spam_time * 1000 = omega arith in
      let at = ap (λ m. m / r.spam_count) one in
      let most = ms_deadline_max r (restart r t c) some_allowed in
      record { allowed = ground (arith, free); unbanned = free; next = omega (arith, most, at) }

  -- An earlier start.
  Spaced-earlier : (a b : ℕ) (ts : List ℕ) → a ≤ b → Spaced b ts → Spaced a ts
  Spaced-earlier a b [] le s = tt
  Spaced-earlier a b (t ∷ ts) le s = (omega (arith, le, s.0), s.1)

  lift_ban-free : (t : ℕ) (c : Counter) → c.banned_til ≡ 0 → (lift_ban r t c).banned_til ≡ 0
  unfolding lift_ban
  lift_ban-free t c free = elim (Bool-cases (is_banned r t c)) [
    | inl h ↦ rw h free
    | inr h ↦ rw h refl
  ]

  add_antispam_event-Clear :
      (t : ℕ) (counter : Counter)
      → counter.banned_til ≡ 0
      → ms_deadline r counter ≤ t
      → Clear t (add_antispam_event r t counter)
  unfolding add_antispam_event
  add_antispam_event-Clear t counter free due =
      let c = lift_ban r t counter in
      let same = lift_ban-ms_deadline r t counter in
      let resets : (c.ms_start == 0 || leb (ms_deadline r c) t) ≡ true =
        ground (arith, same, due) in
      rw (guard r some_allowed counted, resets) (restart-Clear t c (lift_ban-free t counter free))

  -- A player without a ban who waits for the deadline, and then never does two things nearer than
  -- the pace, is never refused.
  pub any_too_soon-Spaced :
      (ts : List ℕ) (c : Counter)
      → c.banned_til ≡ 0
      → Spaced (ms_deadline r c) ts
      → any_too_soon r ts c ≡ false
  unfolding any_too_soon
  any_too_soon-Spaced [] c free spaced = refl
  any_too_soon-Spaced (t ∷ ts) c free spaced =
      let first = add_antispam_event-Clear t c free spaced.0 in
      rw first.allowed (
        any_too_soon-Spaced ts (add_antispam_event r t c).1 first.unbanned
          (Spaced-earlier _ (t + pace r) ts first.next spaced.1))
