-- ===== src/Sessions/Rounds.antt =====
-- What the loop of `start_user` does to the table.
use mcchost.Base.{
  ℕ, zero, suc, ◌+◌, ◌≤◌, ◌≡◌, ◌∙◌, refl, sym, ap, subst, true, false, ◌&&◌, Option, none, some,
  List, [], ◌∷◌, inl, inr, ◌⊎◌, arith,
}
use mcchost.Sessions.Slots.{Session, Scan, Login, is_same, scan_one, with_first, scan}
use mcchost.Sessions.Scanned.{IsFree, user_at, count_active, OneLeft, scan_one-OneLeft}

module _ (who : Login) where
  -- The rounds of the loop, one after the other.
  pub data Scans : ℕ → List Session → Scan → List Session → Scan → Type 0 where
    done : (i : ℕ) (st : Scan) → Scans i [] st [] st
    next :
        (i : ℕ) (e e' : Session) (es es' : List Session) (st st' st'' : Scan)
        → OneLeft who i e st e' st'
        → Scans (suc i) es st' es' st''
        → Scans i (e ∷ es) st (e' ∷ es') st''

  as_found :
      {i : ℕ} {es : List Session} {st : Scan} (a r : List Session × Scan)
      → some a ≡ some r
      → Scans i es st a.0 a.1
      → Scans i es st r.0 r.1
  as_found {i} {es} {st} a r h o =
      let same : a ≡ r = cc in subst (λ (q : List Session × Scan). Scans i es st q.0 q.1) same o

  first_scanned :
      (i : ℕ) (e e' : Session) (es : List Session) (st st' : Scan) (r : List Session × Scan)
      (o : Option (List Session × Scan))
      → OneLeft who i e st e' st'
      → with_first who e' o ≡ some r
      → ((t : List Session × Scan) → o ≡ some t → Scans (suc i) es st' t.0 t.1)
      → Scans i (e ∷ es) st r.0 r.1
  first_scanned i e e' es st st' r none one h ih = let never : ⊥ = cc in elim never [ ]
  first_scanned i e e' es st st' r (some (es', st'')) one h ih =
      as_found (e' ∷ es', st'') r h (next i e e' es es' st st' st'' one (ih (es', st'') refl))

  abbrev then_rest : ℕ → List Session → Option (Session × Scan) → Option (List Session × Scan)
  then_rest i es none = none
  then_rest i es (some q) = with_first who q.0 (scan who (suc i) es q.1)

  one_scanned :
      (i : ℕ) (e : Session) (es : List Session) (st : Scan) (r : List Session × Scan)
      (o : Option (Session × Scan))
      → scan_one who i e st ≡ o
      → then_rest i es o ≡ some r
      → ((st' : Scan) (t : List Session × Scan)
          → scan who (suc i) es st' ≡ some t
          → Scans (suc i) es st' t.0 t.1)
      → Scans i (e ∷ es) st r.0 r.1
  one_scanned i e es st r none is_it h ih = let never : ⊥ = cc in elim never [ ]
  one_scanned i e es st r (some q) is_it h ih =
      first_scanned i e q.0 es st q.1 r (scan who (suc i) es q.1)
        (scan_one-OneLeft who i e st q is_it) h (ih q.1)

  pub scan-Scans :
      (i : ℕ) (es : List Session) (st : Scan) (r : List Session × Scan)
      → scan who i es st ≡ some r
      → Scans i es st r.0 r.1
  unfolding scan
  scan-Scans i [] st r h = as_found ([], st) r h (done i st)
  scan-Scans i (e ∷ es) st r h =
      one_scanned i e es st r (scan_one who i e st) refl (cases_same _ h)
        (λ st' t is_t. scan-Scans (suc i) es st' t is_t)
    where
      cases_same :
          (o : Option (Session × Scan))
          → (elim o [ none ↦ none | some q ↦ with_first who q.0 (scan who (suc i) es q.1) ])
            ≡ some r
          → then_rest i es o ≡ some r
      cases_same none k = k
      cases_same (some q) k = k

  -- What the loop leaves of the user at an index.
  pub record UserLeft (e : Session) (us : List Session) (k : ℕ) : Type 0 where
    pub user : Session
    pub at_index : user_at k us ≡ some user
    pub as_before : (e.active && is_same who.user_id e.name) ≡ false → user ≡ e
    pub not_ours : user.active ≡ true → is_same who.user_id user.name ≡ false

  pub Scans-UserLeft :
      (i k : ℕ) (e : Session) (es us : List Session) (st st' : Scan)
      → Scans i es st us st'
      → user_at k es ≡ some e
      → UserLeft e us k
  Scans-UserLeft i k e es us st st' (done _ _) h = let never : ⊥ = cc in elim never [ ]
  Scans-UserLeft i zero e es us st st' (next _ f f' fs fs' _ _ _ one rest) h =
      let same : f ≡ e = cc in
      record {
        user = f';
        at_index = refl;
        not_ours = one.ours;
        as_before =
            subst (λ (g : Session). (g.active && is_same who.user_id g.name) ≡ false → f' ≡ g) same
              one.others;
      }
  Scans-UserLeft i (suc k) e es us st st' (next _ f f' fs fs' s1 s2 s3 one rest) h =
      let left = Scans-UserLeft (suc i) k e fs fs' s2 s3 rest h in
      record {
        user = left.user;
        at_index = left.at_index;
        as_before = left.as_before;
        not_ours = left.not_ours;
      }

  -- The slot chosen is free.
  pub record FreeAt (i : ℕ) (us : List Session) (n : ℕ) : Type 0 where
    pub offset : ℕ
    pub slot : Session
    pub n_is : n ≡ i + offset
    pub at_slot : user_at offset us ≡ some slot
    pub is_free : IsFree slot

  pub Scans-FreeAt :
      (i n : ℕ) (es us : List Session) (st st' : Scan)
      → Scans i es st us st'
      → st'.new_one ≡ some n
      → (st.new_one ≡ some n) ⊎ FreeAt i us n
  Scans-FreeAt i n es us st st' (done _ _) h = inl h
  Scans-FreeAt i n es us st st' (next _ f f' fs fs' s1 s2 s3 one rest) h =
      elim (Scans-FreeAt (suc i) n fs fs' s2 s3 rest h) [
        | inr far ↦ inr (record {
          offset = suc far.offset;
          slot = far.slot;
          n_is = omega (arith, far.n_is);
          at_slot = far.at_slot;
          is_free = far.is_free;
        })
        | inl now ↦ elim one.free [
          | inl same ↦ inl (sym same ∙ now)
          | inr (here, free_) ↦ inr (record {
            offset = 0;
            slot = f';
            n_is = omega (arith, some_eq (sym now ∙ here));
            at_slot = refl;
            is_free = free_;
          })
        ]
      ]
    where
      some_eq : {a b : ℕ} → some a ≡ some b → a ≡ b
      some_eq h = cc

  pub Scans-highest :
      (i k : ℕ) (e : Session) (es us : List Session) (st st' : Scan)
      → Scans i es st us st'
      → st.highest_uid ≤ i
      → (st.highest_uid ≤ st'.highest_uid)
        × (user_at k us ≡ some e → e.active ≡ true → i + k ≤ st'.highest_uid)
  Scans-highest i k e es us st st' (done _ _) low =
      (omega arith, λ h a. (let never : ⊥ = cc in elim never [ ]))
  Scans-highest i zero e es us st st' (next _ f f' fs fs' s1 s2 s3 one rest) low =
      let on = Scans-highest (suc i) 0 e fs fs' s2 s3 rest (omega (arith, low, one.highest)) in
      (
        omega (arith, on.0, one.highest, low),
        λ h a.
            (let same : f' ≡ e = cc in
              let here = one.active_below (ap (λ (g : Session). g.active) same ∙ a) in
              omega (arith, here, on.0)),
      )
  Scans-highest i (suc k) e es us st st' (next _ f f' fs fs' s1 s2 s3 one rest) low =
      let on = Scans-highest (suc i) k e fs fs' s2 s3 rest (omega (arith, low, one.highest)) in
      (omega (arith, on.0, one.highest, low), λ h a. omega (arith, on.1 h a))

  pub Scans-count :
      (i : ℕ) (es us : List Session) (st st' : Scan)
      → Scans i es st us st'
      → st.connected_sessions + count_active us ≤ st'.connected_sessions
  Scans-count i es us st st' (done _ _) = omega arith
  Scans-count i es us st st' (next _ f f' fs fs' s1 s2 s3 one rest) =
      let on = Scans-count (suc i) fs fs' s2 s3 rest in omega (arith, on, one.counted)
