-- ===== src/Sessions/Admitted.antt =====
-- A login that finds a slot.
use mcchost.Base.{
  ℕ, zero, suc, ◌+◌, ◌<◌, ◌≡◌, ◌∙◌, refl, ap, subst, true, false, not, ◌&&◌, ◌⊎◌, Option, none,
  some, List, [], ◌∷◌, leb, ◌==◌, if◌then◌else◌, set, max, Bool-cases, inl, inr, arith,
}
use mcchost.Sessions.Slots.{
  Session, Scan, Login, is_same, or_here, with_first, scan_one, scan, new_session, started,
  already_logged_in, too_many, try_again, clamp_players, chosen, take_slot, begin_scan, start_user,
}
use mcchost.Sessions.Scanned.{IsFree, user_at, count_active}

-- A free slot, at the index `k`.
abbrev pub HasFree : ℕ → List Session → Type 0
HasFree k es = (e : Session) × (user_at k es ≡ some e) × IsFree e

begun : begin_scan.connected_sessions ≡ 0
unfolding begin_scan
begun = refl

either-IsFree :
    (k : ℕ) (e : Session) (es : List Session)
    → HasFree k (e ∷ es)
    → IsFree e ⊎ ((j : ℕ) × HasFree j es)
either-IsFree zero e es (x, at_, free) = let same : x ≡ e = cc in inl (subst IsFree same free)
either-IsFree (suc k) e es (x, at_, free) = inr (k, (x, at_, free))

module _ (who : Login) where
  -- No session of this user is active.
  abbrev pub AreOthers : List Session → Type 0
  AreOthers [] = Unit
  AreOthers (e ∷ es) = ((e.active && is_same who.user_id e.name) ≡ false) × AreOthers es

  abbrev one_then : ℕ → Session → Scan → Scan
  one_then i e st =
      if not e.active
      then (if e.session_id == 0 then record st { new_one = or_here st.new_one i } else st)
      else record st { connected_sessions = st.connected_sessions + 1; highest_uid = i }

  other_one :
      (i : ℕ) (e : Session) (st : Scan)
      → (e.active && is_same who.user_id e.name) ≡ false
      → scan_one who i e st ≡ some (e, one_then i e st)
  unfolding scan_one
  other_one i e st h = elim (Bool-cases e.active) [
    | inr off ↦ elim (Bool-cases (e.session_id == 0)) [
      | inl empty ↦ rw (off, empty) refl
      | inr used ↦ rw (off, used) refl
    ]
    | inl on ↦
        let other : is_same who.user_id e.name ≡ false = ground (arith, h, on) in
        rw (other, on) refl
  ]

  -- The loop over users of other names.
  record Passed (i : ℕ) (es : List Session) (st : Scan) : Type 0 where
    last : Scan
    scanned : scan who i es st ≡ some (es, last)
    counted : last.connected_sessions ≡ st.connected_sessions + count_active es
    kept : (n : ℕ) → st.new_one ≡ some n → last.new_one ≡ some n
    found : (k : ℕ) → HasFree k es → (n : ℕ) × (last.new_one ≡ some n)

  one_counted :
      (i : ℕ) (e : Session) (st : Scan)
      → (one_then i e st).connected_sessions ≡ st.connected_sessions + (if e.active then 1 else 0)
  one_counted i e st = ground arith

  one_kept :
      (i n : ℕ) (e : Session) (st : Scan) → st.new_one ≡ some n → (one_then i e st).new_one ≡ some n
  one_kept i n e st h = elim (Bool-cases e.active) [
    | inl on ↦ rw on h
    | inr off ↦ elim (Bool-cases (e.session_id == 0)) [
      | inl empty ↦ rw (off, empty) (ap (λ (o : Option ℕ). or_here o i) h)
      | inr used ↦ rw (off, used) h
    ]
  ]

  one_found :
      (i : ℕ) (e : Session) (st : Scan) → IsFree e → (n : ℕ) × ((one_then i e st).new_one ≡ some n)
  one_found i e st h =
      let empty : (e.session_id == 0) ≡ true = ground (arith, h.1) in
      rw (h.0, empty) (here st.new_one)
    where
      here : (o : Option ℕ) → (n : ℕ) × (or_here o i ≡ some n)
      here none = (i, refl)
      here (some n) = (n, refl)

  scan-Passed : (i : ℕ) (es : List Session) (st : Scan) → AreOthers es → Passed i es st
  unfolding scan
  scan-Passed i [] st h = record {
    last = st;
    scanned = refl;
    counted = omega arith;
    kept = λ n k. k;
    found = λ k f. (let never : ⊥ = no_user f.1 in elim never [ ]);
  }
    where
      no_user : {e : Session} → ◌≡◌ {A = Option Session} none (some e) → ⊥
      no_user h = cc
  scan-Passed i (e ∷ es) st h =
      let rest = scan-Passed (suc i) es (one_then i e st) h.1 in
      let one = other_one i e st h.0 in
      record {
        last = rest.last;
        scanned =
            ap
              (λ (o : Option (Session × Scan)). elim o [
                | none ↦ none
                | some r ↦ with_first who r.0 (scan who (suc i) es r.1)
              ])
              one
            ∙ ap (with_first who e) rest.scanned;
        counted = omega (arith, rest.counted, one_counted i e st);
        kept = λ n k. rest.kept n (one_kept i n e st k);
        found = λ k f. elim (either-IsFree k e es f) [
          | inl here ↦ (let n = one_found i e st here in (n.0, rest.kept n.0 n.1))
          | inr (j, far) ↦ rest.found j far
        ];
      }

  module _ (max_players : ℕ) where
    chosen_lem :
        (st : Scan) (n : ℕ)
        → st.new_one ≡ some n
        → st.connected_sessions < clamp_players max_players
        → chosen who max_players st ≡ some n
    unfolding chosen
    chosen_lem st n h room =
        let fits : (leb (clamp_players max_players) st.connected_sessions && not who.is_admin)
            ≡ false =
          ground (arith, room) in
        rw fits h

    started_on :
        (users : List Session) (st : Scan) (n : ℕ)
        → scan who 0 users begin_scan ≡ some (users, st)
        → chosen who max_players st ≡ some n
        → start_user who max_players users
          ≡ started
              (set users n (new_session who))
              n
              (max st.highest_uid n)
              (st.connected_sessions + 1)
    unfolding start_user take_slot
    started_on users st n scanned chose =
        ap
          (λ (o : Option (List Session × Scan)). elim o [
            | none ↦ already_logged_in
            | some r ↦ take_slot who max_players r.0 r.1
          ])
          scanned
        ∙ ap
            (λ (o : Option ℕ). elim o [
              | none ↦ if st.kicked == 0 then too_many users else try_again users
              | some m ↦
                  started (set users m (new_session who)) m (max st.highest_uid m)
                    (st.connected_sessions + 1)
            ])
            chose

    -- A login is given a slot where no session of the user is active, a slot is free and there are
    -- fewer active sessions than max_players. The other slots are as they were.
    pub start_user_enough :
        (users : List Session) (k : ℕ)
        → AreOthers users
        → HasFree k users
        → count_active users < clamp_players max_players
        → (n : ℕ) × (highest : ℕ) × (start_user who max_players users
            ≡ started (set users n (new_session who)) n highest (count_active users + 1))
    start_user_enough users k others free room =
        let plain = scan-Passed 0 users begin_scan others in
        let n = plain.found k free in
        let counted : plain.last.connected_sessions ≡ count_active users =
          omega (arith, plain.counted, begun) in
        let chose = chosen_lem plain.last n.0 n.1 (omega (arith, counted, room)) in
        let highest = max plain.last.highest_uid n.0 in
        (
          n.0,
          highest,
          started_on users plain.last n.0 plain.scanned chose
              ∙ ap (λ (c : ℕ). started (set users n.0 (new_session who)) n.0 highest (c + 1))
                  counted,
        )
