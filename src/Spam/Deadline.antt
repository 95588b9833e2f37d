-- ===== src/Spam/Deadline.antt =====
-- One event, and how it puts the deadline off.
use mcchost.Base.{
  ℕ, suc, ◌+◌, ◌-◌, ◌*◌, ◌/◌, ◌%◌, ◌^◌, ◌≤◌, ◌<◌, ◌≡◌, ◌∙◌, refl, sym, ap, true, false, ◌&&◌, ◌||◌,
  ltb, leb, ◌==◌, arith, Bool-cases, inl, inr, ==_iff,
}
use native.Mathlib.Nat.{le-div_iff_mul-le, add-mul-div_left, div-mul-le_self}
use mcchost.Base.Int.{pos, sub_ℕ, int32}
use mcchost.Dates.{div_ℤ}
use mcchost.Dates.Integers.{int32_pos}
use mcchost.Spam.{
  Counter, Rules, window_ms, moved_time, ms_deadline, is_banned, lift_ban, restart, count_event,
  ban, add_antispam_event,
}

div_add : (a b n : ℕ) → 0 < n → a / n + b / n ≤ (a + b) / n
div_add a b n h =
    (le-div_iff_mul-le {k = n} {x = a / n + b / n} {y = a + b} h).1 (
      let one = div-mul-le_self a n in let other = div-mul-le_self b n in grind (arith, one, other))

multiples : (d n t : ℕ) → (d + n) * t + t ≡ (d + 1) * t + n * t
multiples d n t = grind arith

div_mono : (a b n : ℕ) → 0 < n → a ≤ b → a / n ≤ b / n
div_mono a b n h le =
    (le-div_iff_mul-le {k = n} {x = a / n} {y = b} h).1
      (let one = div-mul-le_self a n in omega (arith, one, le))

turned : (e n t : ℕ) → 0 < n → n ≤ e → (e - n + 1) * t / n + t ≡ (e * t + t) / n
turned e n t h le =
    let split : e ≡ e - n + n = omega (arith, le) in
    sym (add-mul-div_left ((e - n + 1) * t) t h)
    ∙ ap (λ m. m / n) (sym (multiples (e - n) n t))
    ∙ ap (λ k. (k * t + t) / n) (sym split)

one_more : (e n t : ℕ) → (e + 1) * t / n ≡ (e * t + t) / n
one_more e n t = let same : (e + 1) * t ≡ e * t + t = grind arith in ap (λ m. m / n) same

module _ (r : Rules) where
  -- The least time between two events, on average.
  abbrev pub pace : ℕ
  pace = r.spam_time * 1000 / r.spam_count

  -- The deadline where the product keeps to 32 bits.
  abbrev pub plain_deadline : Counter → ℕ
  plain_deadline c = c.ms_start + c.events * (r.spam_time * 1000) / r.spam_count

  -- A product that is cut makes the deadline earlier, never later.
  pub ms_deadline_max : (c : Counter) → 0 < r.spam_count → ms_deadline r c ≤ plain_deadline c
  unfolding ms_deadline div_ℤ int32
  ms_deadline_max c h =
      let n = c.events * (r.spam_time * 1000) in
      let cut = div_mono (n % 2 ^ 32) n r.spam_count h (omega arith) in
      elim (Bool-cases (ltb (n % 2 ^ 32) (2 ^ 31))) [
        | inl small ↦ rw small (omega (arith, cut))
        | inr large ↦
            rw large
              (back c.ms_start (suc (2 ^ 32 - 1 - n % 2 ^ 32) / r.spam_count) (n / r.spam_count))
      ]
    where
      back : (t x y : ℕ) → moved_time t (sub_ℕ 0 x) ≤ t + y
      back t x y = elim (Bool-cases (leb x 0)) [
        | inl none ↦ rw none (omega (arith, none))
        | inr some ↦ rw some (omega arith)
      ]

  pub lift_ban-ms_deadline :
      (t : ℕ) (c : Counter) → ms_deadline r (lift_ban r t c) ≡ ms_deadline r c
  unfolding lift_ban ms_deadline
  lift_ban-ms_deadline t c = elim (Bool-cases (is_banned r t c)) [
    | inl h ↦ rw h refl
    | inr h ↦ rw h refl
  ]

  lift_ban-events : (t : ℕ) (c : Counter) → (lift_ban r t c).events ≡ c.events
  unfolding lift_ban
  lift_ban-events t c = elim (Bool-cases (is_banned r t c)) [
    | inl h ↦ rw h refl
    | inr h ↦ rw h refl
  ]

  pub lift_ban-ms_start : (t : ℕ) (c : Counter) → (lift_ban r t c).ms_start ≡ c.ms_start
  unfolding lift_ban
  lift_ban-ms_start t c = elim (Bool-cases (is_banned r t c)) [
    | inl h ↦ rw h refl
    | inr h ↦ rw h refl
  ]

  -- An event puts the deadline off by the pace, from the event's time on at the least, and leaves no
  -- more events than the limit.
  pub record Later (due t : ℕ) (c : Counter) : Type 0 where
    pub started : 0 < c.ms_start
    pub few : c.events ≤ r.spam_count
    pub from_due : due + pace ≤ plain_deadline c
    pub from_now : t + pace ≤ plain_deadline c

  ban-Later : (due t now at : ℕ) (c : Counter) → Later due t c → Later due t (ban r now at c)
  unfolding ban
  ban-Later due t now at c h = record {
    started = h.started;
    few = h.few;
    from_due = h.from_due;
    from_now = h.from_now;
  }

  module _ (some_allowed : 0 < r.spam_count) (counted : r.exempt ≡ false) where
    pub guard : (r.spam_count == 0 || r.exempt) ≡ false
    guard = ground (arith, some_allowed, counted)

  -- The limit's milliseconds, for all of its events, keep to 32 bits.
  module _ (some_allowed : 0 < r.spam_count) (counted : r.exempt ≡ false)
      (in_range : r.spam_count * (r.spam_time * 1000) < 2 ^ 31) where
    pub ms_deadline-plain_deadline :
        (c : Counter) → c.events ≤ r.spam_count → ms_deadline r c ≡ plain_deadline c
    unfolding ms_deadline div_ℤ
    ms_deadline-plain_deadline c few =
        let product : c.events * (r.spam_time * 1000) ≤ r.spam_count * (r.spam_time * 1000) =
          grind (arith, few) in
        rw (int32_pos (c.events * (r.spam_time * 1000)) (omega (arith, product, in_range))) refl

    pub window_ms-pos : window_ms r ≡ pos (r.spam_time * 1000)
    unfolding window_ms
    window_ms-pos =
        let one : r.spam_time * 1000 ≤ r.spam_count * (r.spam_time * 1000) =
          grind (arith, some_allowed) in
        int32_pos (r.spam_time * 1000) (omega (arith, one, in_range))

    restart-Later : (due t : ℕ) (c : Counter) → 0 < t → due ≤ t → Later due t (restart r t c)
    unfolding restart
    restart-Later due t c h le =
        let same : 1 * (r.spam_time * 1000) ≡ r.spam_time * 1000 = omega arith in
        let at = ap (λ m. m / r.spam_count) same in
        record {
          started = h;
          few = omega (arith, some_allowed);
          from_due = omega (arith, at, le);
          from_now = omega (arith, at, le);
        }

    count_event-plain_deadline :
        (t : ℕ) (c : Counter)
        → plain_deadline (count_event r t c)
          ≡ c.ms_start + (c.events * (r.spam_time * 1000) + r.spam_time * 1000) / r.spam_count
    unfolding count_event
    count_event-plain_deadline t c = elim (Bool-cases (leb r.spam_count c.events)) [
      | inl full ↦
          let all =
            turned c.events r.spam_count (r.spam_time * 1000) some_allowed (ground (arith, full)) in
          rw (full, window_ms-pos) (omega (arith, all))
      | inr room ↦
          rw room (ap (λ d. c.ms_start + d) (one_more c.events r.spam_count (r.spam_time * 1000)))
    ]

    count_event-started : (t : ℕ) (c : Counter) → 0 < c.ms_start → 0 < (count_event r t c).ms_start
    unfolding count_event
    count_event-started t c s = elim (Bool-cases (leb r.spam_count c.events)) [
      | inl full ↦ rw (full, window_ms-pos) (omega (arith, s))
      | inr room ↦ rw room s
    ]

    count_event-few :
        (t : ℕ) (c : Counter) → c.events ≤ r.spam_count → (count_event r t c).events ≤ r.spam_count
    unfolding count_event
    count_event-few t c few = elim (Bool-cases (leb r.spam_count c.events)) [
      | inl full ↦ rw full (omega (arith, few, some_allowed))
      | inr room ↦
          let below : c.events < r.spam_count = ground (arith, room) in
          rw room (omega (arith, below))
    ]

    count_event-Later :
        (t : ℕ) (c : Counter)
        → c.events ≤ r.spam_count
        → 0 < c.ms_start
        → t ≤ plain_deadline c
        → Later (plain_deadline c) t (count_event r t c)
    count_event-Later t c few s le =
        let more = count_event-plain_deadline t c in
        let apart =
          div_add (c.events * (r.spam_time * 1000)) (r.spam_time * 1000) r.spam_count
            some_allowed in
        record {
          started = count_event-started t c s;
          few = count_event-few t c few;
          from_due = omega (arith, more, apart, le);
          from_now = omega (arith, more, apart, le);
        }

    pub add_antispam_event-Later :
        (due t : ℕ) (counter : Counter)
        → 0 < t
        → counter.events ≤ r.spam_count
        → (counter.ms_start ≡ 0 → due ≡ 0)
        → due ≤ plain_deadline counter
        → Later due t (add_antispam_event r t counter).1
    unfolding add_antispam_event
    add_antispam_event-Later due t counter pt few fresh low =
        let c = lift_ban r t counter in
        let start = lift_ban-ms_start t counter in
        let count = lift_ban-events t counter in
        let few' : c.events ≤ r.spam_count = omega (arith, count, few) in
        let plain = ms_deadline-plain_deadline c few' in
        let exact = ms_deadline-plain_deadline counter few in
        let same = lift_ban-ms_deadline t counter in
        let due_then : due ≤ ms_deadline r c = omega (arith, exact, same, low) in
        let before : (c.ms_start == 0 || leb (ms_deadline r c) t) ≡ true → due ≤ t = λ resets.
          elim (Bool-cases (c.ms_start == 0)) [
            | inl none ↦
                let nothing = fresh (sym start ∙ (==_iff c.ms_start 0).0 none) in
                omega (arith, nothing)
            | inr some ↦ ground (arith, resets, some, due_then)
          ] in
        elim (Bool-cases (c.ms_start == 0 || leb (ms_deadline r c) t)) [
          | inl resets ↦
              rw (guard some_allowed counted, resets) (restart-Later due t c pt (before resets))
          | inr runs ↦
              let ahead : t ≤ ms_deadline r c = ground (arith, runs) in
              let more =
                count_event-Later t c few' (ground (arith, runs)) (omega (arith, ahead, plain)) in
              let later : Later due t (count_event r t c) = record {
                started = more.started;
                few = more.few;
                from_due = omega (arith, more.from_due, due_then, plain);
                from_now = more.from_now;
              } in
              elim (Bool-cases (
                ltb (ms_deadline r c) (moved_time t (window_ms r))
                && ltb (count_event r t c).cheater 3)) [
                  | inl passes ↦ rw (guard some_allowed counted, runs, passes) later
                  | inr spams ↦
                      rw (guard some_allowed counted, runs, spams)
                        (ban-Later due t t (ms_deadline r c) (count_event r t c) later)
                ]
        ]
