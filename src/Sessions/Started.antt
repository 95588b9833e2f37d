-- ===== src/Sessions/Started.antt =====
-- The table after `start_user`.
use mcchost.Base.{
  ℕ, zero, suc, ◌+◌, ◌≤◌, ◌<◌, ◌≡◌, ◌≢◌, ◌∙◌, refl, sym, ap, subst, true, false, not, ◌&&◌, Option,
  none, some, List, [], ◌∷◌, leb, ◌==◌, if◌then◌else◌, set, max, Bool-cases, if_keeps, inl, inr,
  arith,
}
use mcchost.Sessions.Slots.{
  Session, Scan, Login, is_same, scan, new_session, Start, started, too_many, try_again,
  already_logged_in, clamp_players, chosen, take_slot, begin_scan, start_user,
}
use mcchost.Sessions.Scanned.{IsFree, user_at, count_active}
use mcchost.Sessions.Rounds.{
  Scans, scan-Scans, Scans-UserLeft, Scans-FreeAt, Scans-highest, Scans-count,
}

user_at-set_self :
    (us : List Session) (n : ℕ) (v e : Session)
    → user_at n us ≡ some e
    → user_at n (set us n v) ≡ some v
user_at-set_self [] n v e h = let never : ⊥ = cc in elim never [ ]
user_at-set_self (u ∷ us) zero v e h = refl
user_at-set_self (u ∷ us) (suc n) v e h = user_at-set_self us n v e h

user_at-set_ne :
    (us : List Session) (n k : ℕ) (v : Session) → k ≢ n → user_at k (set us n v) ≡ user_at k us
user_at-set_ne [] n k v h = refl
user_at-set_ne (u ∷ us) zero zero v h = let never : ⊥ = h refl in elim never [ ]
user_at-set_ne (u ∷ us) zero (suc k) v h = refl
user_at-set_ne (u ∷ us) (suc n) zero v h = refl
user_at-set_ne (u ∷ us) (suc n) (suc k) v h = user_at-set_ne us n k v (omega (arith, h))

count_active-set :
    (us : List Session) (n : ℕ) (v : Session) → count_active (set us n v) ≤ count_active us + 1
count_active-set [] n v = omega arith
count_active-set (u ∷ us) zero v = ground arith
count_active-set (u ∷ us) (suc n) v = omega (arith, count_active-set us n v)

-- The user at an index before the loop, if there is one after it.
user_before :
    (who : Login) (i k : ℕ) (u : Session) (es us : List Session) (st st' : Scan)
    → Scans who i es st us st'
    → user_at k us ≡ some u
    → (e : Session) × (user_at k es ≡ some e)
user_before who i k u es us st st' (Scans.done _ _) h = let never : ⊥ = cc in elim never [ ]
user_before who i zero u es us st st' (Scans.next _ f _ _ _ _ _ _ one rest) h = (f, refl)
user_before who i (suc k) u es us st st' (Scans.next _ f f' fs fs' s1 s2 s3 one rest) h =
    user_before who (suc i) k u fs fs' s2 s3 rest h

module _ (who : Login) (max_players : ℕ) where
  -- A table where the session of the login has the slot `n`.
  pub record IsStarted (users t : List Session) (n highest connected : ℕ) : Type 0 where
    pub ours : user_at n t ≡ some (new_session who)
    pub was_free :
        (e : Session)
        → user_at n users ≡ some e
        → (e.active && is_same who.user_id e.name) ≡ false
        → IsFree e
    pub only_ours :
        (k : ℕ) (u : Session)
        → k ≢ n
        → user_at k t ≡ some u
        → u.active ≡ true
        → is_same who.user_id u.name ≡ false
    pub others :
        (k : ℕ) (e : Session)
        → k ≢ n
        → user_at k users ≡ some e
        → (e.active && is_same who.user_id e.name) ≡ false
        → user_at k t ≡ some e
    pub highest_is : (k : ℕ) (u : Session) → user_at k t ≡ some u → u.active ≡ true → k ≤ highest
    pub few :
        who.is_admin ≡ false
        → (connected ≤ clamp_players max_players) × (count_active t ≤ clamp_players max_players)

  chosen_room :
      (st : Scan) (n : ℕ)
      → chosen who max_players st ≡ some n
      → (st.new_one ≡ some n)
        × (who.is_admin ≡ false → st.connected_sessions < clamp_players max_players)
  unfolding chosen
  chosen_room st n h =
      elim (Bool-cases
        (leb (clamp_players max_players) st.connected_sessions && not who.is_admin)) [
          | inl full ↦
              (let none_chosen : none ≡ some n = rw full at h in
                let never : ⊥ = cc in elim never [ ])
          | inr room ↦ (rw room at h, λ plain. ground (arith, room, plain))
        ]

  -- The slot `n` is in the table, and free after the loop.
  record IsTaken (us : List Session) (n : ℕ) : Type 0 where
    slot : Session
    at_slot : user_at n us ≡ some slot
    is_free : IsFree slot

  slot-IsTaken :
      (users us : List Session) (st : Scan) (n : ℕ)
      → Scans who 0 users begin_scan us st
      → st.new_one ≡ some n
      → IsTaken us n
  unfolding begin_scan
  slot-IsTaken users us st n scans is_n =
      elim (Scans-FreeAt who 0 n users us begin_scan st scans is_n) [
        | inl begun ↦ (let never : ⊥ = cc in elim never [ ])
        | inr f ↦
            (let same : f.offset ≡ n = omega (arith, f.n_is) in
              record {
                slot = f.slot;
                is_free = f.is_free;
                at_slot = subst (λ (k : ℕ). user_at k us ≡ some f.slot) same f.at_slot;
              })
      ]

  taken-IsStarted :
      (users us : List Session) (st : Scan) (n : ℕ)
      → Scans who 0 users begin_scan us st
      → chosen who max_players st ≡ some n
      → IsStarted users
          (set us n (new_session who))
          n
          (max st.highest_uid n)
          (st.connected_sessions + 1)
  unfolding begin_scan
  taken-IsStarted users us st n scans chose =
      let room = chosen_room st n chose in
      let taken = slot-IsTaken users us st n scans room.0 in
      let mine = new_session who in
      record {
        ours = user_at-set_self us n mine taken.slot taken.at_slot;
        was_free = λ e h other.
            (let left = Scans-UserLeft who 0 n e users us begin_scan st scans h in
              let same : taken.slot ≡ left.user = some_eq (sym taken.at_slot ∙ left.at_index) in
              subst IsFree (same ∙ left.as_before other) taken.is_free);
        only_ours = λ k u ne h a.
            (let there : user_at k us ≡ some u = sym (user_at-set_ne us n k mine ne) ∙ h in
              let before = user_before who 0 k u users us begin_scan st scans there in
              let left = Scans-UserLeft who 0 k before.0 users us begin_scan st scans before.1 in
              let same : left.user ≡ u = some_eq (sym left.at_index ∙ there) in
              subst (λ (w : Session). is_same who.user_id w.name ≡ false) same
                (left.not_ours (ap (λ (w : Session). w.active) same ∙ a)));
        others = λ k e ne h other.
            (let left = Scans-UserLeft who 0 k e users us begin_scan st scans h in
              user_at-set_ne us n k mine ne ∙ left.at_index ∙ ap some (left.as_before other));
        highest_is = λ k u h a. elim (Bool-cases (k == n)) [
          | inl here ↦ ground (arith, here)
          | inr other ↦
              (let ne : k ≢ n = ground (arith, other) in
                let there : user_at k us ≡ some u = sym (user_at-set_ne us n k mine ne) ∙ h in
                let below = Scans-highest who 0 k u users us begin_scan st scans first_low in
                omega (arith, below.1 there a))
        ];
        few = λ plain.
            (let fits = room.1 plain in
              let counted = Scans-count who 0 users us begin_scan st scans in
              (omega (arith, fits), omega (arith, fits, counted, count_active-set us n mine)));
      }
    where
      first_low : begin_scan.highest_uid ≤ 0
      first_low = omega arith

      some_eq : {a b : Session} → some a ≡ some b → a ≡ b
      some_eq h = cc

  abbrev Takes : List Session → Start → Type 0
  Takes users (started t n highest connected) = IsStarted users t n highest connected
  Takes users (too_many t) = Unit
  Takes users (try_again t) = Unit
  Takes users already_logged_in = Unit

  take_slot-Takes :
      (users us : List Session) (st : Scan)
      → Scans who 0 users begin_scan us st
      → Takes users (take_slot who max_players us st)
  unfolding take_slot
  take_slot-Takes users us st scans = chosen_Takes (chosen who max_players st) refl
    where
      chosen_Takes :
          (o : Option ℕ)
          → chosen who max_players st ≡ o
          → Takes users (elim o [
            | none ↦ if st.kicked == 0 then too_many us else try_again us
            | some n ↦
                started
                  (set us n (new_session who))
                  n
                  (max st.highest_uid n)
                  (st.connected_sessions + 1)
          ])
      chosen_Takes none h = if_keeps (Takes users) (st.kicked == 0) _ _ (λ e. tt) (λ e. tt)
      chosen_Takes (some n) h = taken-IsStarted users us st n scans h

  start_user-Takes : (users : List Session) → Takes users (start_user who max_players users)
  unfolding start_user
  start_user-Takes users = scanned_Takes (scan who 0 users begin_scan) refl
    where
      scanned_Takes :
          (o : Option (List Session × Scan))
          → scan who 0 users begin_scan ≡ o
          → Takes users
              (elim o [ none ↦ already_logged_in | some r ↦ take_slot who max_players r.0 r.1 ])
      scanned_Takes none h = tt
      scanned_Takes (some r) h =
          take_slot-Takes users r.0 r.1 (scan-Scans who 0 users begin_scan r h)

  -- Where `start_user` goes on, the login has its slot, which was free or held a session of the same
  -- user; no other slot has an active session of that user; sessions of other users, and slots that
  -- are not active, are as they were; every active slot is at or below `highest_used_uid`; and for a
  -- user who is no admin there are no more active sessions than max_players.
  pub start_user-IsStarted :
      (users t : List Session) (n highest connected : ℕ)
      → start_user who max_players users ≡ started t n highest connected
      → IsStarted users t n highest connected
  start_user-IsStarted users t n highest connected h =
      subst (Takes users) h (start_user-Takes users)
