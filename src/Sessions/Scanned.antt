-- ===== src/Sessions/Scanned.antt =====
-- What a round of the loop of `start_user` does to the table.
use mcchost.Base.{
  ℕ, zero, suc, ◌+◌, ◌≤◌, ◌≡◌, ◌∙◌, refl, sym, subst, true, false, not, ◌&&◌, Option, none, some,
  List, [], ◌∷◌, ◌==◌, if◌then◌else◌, Bool-cases, inl, inr, ◌⊎◌, arith,
}
use mcchost.Sessions.Slots.{Session, Scan, Login, is_same, or_here, has_died, scan_one}

-- The user at an index, if there is one.
abbrev pub user_at : ℕ → List Session → Option Session
user_at k [] = none
user_at zero (e ∷ es) = some e
user_at (suc k) (e ∷ es) = user_at k es

-- A slot that a new session can have.
abbrev pub IsFree : Session → Type 0
IsFree e = (e.active ≡ false) × (e.session_id ≡ 0)

-- The sessions that are active.
abbrev pub count_active : List Session → ℕ
count_active [] = 0
count_active (e ∷ es) = (if e.active then 1 else 0) + count_active es

module _ (who : Login) where
  -- What a round leaves: users of other names as they were, no other session of this one.
  pub record OneLeft (i : ℕ) (e : Session) (st : Scan) (e' : Session) (st' : Scan) : Type 0 where
    pub others : (e.active && is_same who.user_id e.name) ≡ false → e' ≡ e
    pub ours : e'.active ≡ true → is_same who.user_id e'.name ≡ false
    pub free : (st'.new_one ≡ st.new_one) ⊎ ((st'.new_one ≡ some i) × IsFree e')
    pub highest : (st'.highest_uid ≡ st.highest_uid) ⊎ (st'.highest_uid ≡ i)
    pub active_below : e'.active ≡ true → st'.highest_uid ≡ i
    pub counted : st.connected_sessions + (if e'.active then 1 else 0) ≤ st'.connected_sessions

  from_some :
      {i : ℕ} {e : Session} {st : Scan} (a r : Session × Scan)
      → some a ≡ some r
      → OneLeft i e st a.0 a.1
      → OneLeft i e st r.0 r.1
  from_some {i} {e} {st} a r h o =
      let same : a ≡ r = cc in subst (λ (q : Session × Scan). OneLeft i e st q.0 q.1) same o

  or_here_cases : (o : Option ℕ) (i : ℕ) → (or_here o i ≡ o) ⊎ (or_here o i ≡ some i)
  or_here_cases none i = inr refl
  or_here_cases (some n) i = inl refl

  or_here-IsFree :
      (o : Option ℕ) (i : ℕ) (e : Session)
      → IsFree e
      → (or_here o i ≡ o) ⊎ ((or_here o i ≡ some i) × IsFree e)
  or_here-IsFree o i e h = elim (or_here_cases o i) [ inl a ↦ inl a | inr b ↦ inr (b, h) ]

  pub scan_one-OneLeft :
      (i : ℕ) (e : Session) (st : Scan) (r : Session × Scan)
      → scan_one who i e st ≡ some r
      → OneLeft i e st r.0 r.1
  unfolding scan_one
  scan_one-OneLeft i e st r h =
      let counted_ = record st { connected_sessions = st.connected_sessions + 1 } in
      let is = λ (q : Session × Scan). scan_one who i e st ≡ some q in
      let first = record st { new_one = or_here st.new_one i } in
      let other_ = record counted_ { highest_uid = i } in
      let wiped = record e { active = false; session_id = 0 } in
      let wiped_st = record counted_ { new_one = or_here st.new_one i } in
      let put_off = record e { active = false } in
      let kicked_st = record counted_ { kicked = st.kicked + 1; highest_uid = i } in
      elim (Bool-cases e.active) [
        | inr off ↦ elim (Bool-cases (e.session_id == 0)) [
          | inl empty ↦
              let is_it : is (e, first) = rw (off, empty) refl in
              from_some (e, first) r (sym is_it ∙ h)
                (record {
                  others = λ a. refl;
                  ours = λ a. ground (arith, a, off);
                  free = or_here-IsFree st.new_one i e (off, ground (arith, empty));
                  highest = inl refl;
                  active_below = λ a. ground (arith, a, off);
                  counted = ground (arith, off);
                })
          | inr used ↦
              let is_it : is (e, st) = rw (off, used) refl in
              from_some (e, st) r (sym is_it ∙ h)
                (record {
                  others = λ a. refl;
                  ours = λ a. ground (arith, a, off);
                  free = inl refl;
                  highest = inl refl;
                  active_below = λ a. ground (arith, a, off);
                  counted = ground (arith, off);
                })
        ]
        | inl on ↦ elim (Bool-cases (is_same who.user_id e.name)) [
          | inr other ↦
              let is_it : is (e, other_) = rw (other, on) refl in
              from_some (e, other_) r (sym is_it ∙ h)
                (record {
                  others = λ a. refl;
                  ours = λ a. other;
                  free = inl refl;
                  highest = inr refl;
                  active_below = λ a. refl;
                  counted = ground (arith, on);
                })
          | inl ours_ ↦ elim (Bool-cases (has_died who e)) [
            | inl dead ↦
                let is_it : is (wiped, wiped_st) = rw (dead, ours_, on) refl in
                from_some (wiped, wiped_st) r (sym is_it ∙ h)
                  (record {
                    others = λ a. (let never : ⊥ = ground (arith, a, on, ours_) in elim never [ ]);
                    ours = λ a. ground (arith, a);
                    free = or_here-IsFree st.new_one i wiped (refl, refl);
                    highest = inl refl;
                    active_below = λ a. ground (arith, a);
                    counted = omega arith;
                  })
            | inr lives ↦ elim (Bool-cases (not who.user_authenticated && not e.packet_idle)) [
              | inl refused ↦
                  let is_it : scan_one who i e st ≡ none = rw (lives, ours_, refused, on) refl in
                  let never : ⊥ = cc in elim never [ ]
              | inr kicks ↦
                  let is_it : is (put_off, kicked_st) = rw (lives, ours_, kicks, on) refl in
                  from_some (put_off, kicked_st) r (sym is_it ∙ h)
                    (record {
                      others =
                          λ a. (let never : ⊥ = ground (arith, a, on, ours_) in elim never [ ]);
                      ours = λ a. ground (arith, a);
                      free = inl refl;
                      highest = inr refl;
                      active_below = λ a. ground (arith, a);
                      counted = omega arith;
                    })
            ]
          ]
        ]
      ]
