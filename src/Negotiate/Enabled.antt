-- ===== src/Negotiate/Enabled.antt =====
-- Which extensions an entry enables.
use mcchost.Base.{
  ℕ, ◌≡◌, ◌∙◌, refl, sym, ap, subst, Bool, true, false, not, ◌&&◌, ◌||◌, none, some, List, [], ◌∷◌,
  ◌==◌, if◌then◌else◌, if_keeps, arith,
}
use mcchost.Base.Int.{ℤ, pos, ◌-ℤ◌, ltb_ℤ, eq_ℤ}
use mcchost.Sessions.Slots.{Bytes}
use mcchost.Negotiate.Entries.{
  Extension, Flags, set_flag, Negotiation, Enabling, repeated, too_late, looked, behind, enable,
  is_asked, map_flags, wants_blockdefn, last_entry, with_pending, try_complete, after_loop,
  process_extentry,
}

module _ (extname : Bytes) (version : ℤ) (pending : Bool) where
  -- An entry leaves an extension as it was, or enables it: then it is the one asked for, it is
  -- advertised, and it is not one that has to come in time where it is late.
  pub data IsKept (e : Extension) : Extension → Type 0 where
    same : IsKept e e
    enabled_now :
        is_asked extname version e ≡ true
        → e.enabled ≡ false
        → e.disabled ≡ false
        → (e.nolate ≡ true → pending ≡ true)
        → IsKept e (record e { enabled = true })

  abbrev pub AreKept : List Extension → List Extension → Type 0
  AreKept [] [] = Unit
  AreKept [] (e ∷ es) = ⊥
  AreKept (e ∷ es) [] = ⊥
  AreKept (e ∷ es) (e' ∷ es') = IsKept e e' × AreKept es es'

  all_same : (es : List Extension) → AreKept es es
  all_same [] = tt
  all_same (e ∷ es) = (same, all_same es)

  abbrev KeptIf : List Extension → Enabling → Type 0
  KeptIf es repeated = Unit
  KeptIf es too_late = Unit
  KeptIf es (looked es' f) = AreKept es es'

  behind-KeptIf :
      (e e' : Extension) (es : List Extension) (r : Enabling)
      → IsKept e e'
      → KeptIf es r
      → KeptIf (e ∷ es) (behind e' r)
  behind-KeptIf e e' es repeated k h = tt
  behind-KeptIf e e' es too_late k h = tt
  behind-KeptIf e e' es (looked es' f) k h = (k, h)

  enable-KeptIf :
      (es : List Extension) (f : Flags) → KeptIf es (enable extname version pending es f)
  unfolding enable
  enable-KeptIf [] f = tt
  enable-KeptIf (e ∷ es) f =
      let skipped = enable-KeptIf es f in
      let taken = enable-KeptIf es (set_flag e.enabled_flag f) in
      if_keeps (KeptIf (e ∷ es)) (not (is_asked extname version e)) _ _
        (λ h. behind-KeptIf e e es _ same skipped)
        (λ h.
          if_keeps (KeptIf (e ∷ es)) e.enabled _ _ (λ k. tt)
            (λ k.
              if_keeps (KeptIf (e ∷ es)) (e.nolate && not pending) _ _ (λ l. tt)
                (λ l.
                  if_keeps (KeptIf (e ∷ es)) e.disabled _ _ (λ m. (same, all_same es))
                    (λ m.
                      behind-KeptIf e (record e { enabled = true }) es _
                        (enabled_now (ground (arith, h)) k m (λ late. ground (arith, l, late)))
                        taken))))

abbrev HasExtensions : List Extension → Negotiation → Type 0
HasExtensions es m = m.extensions ≡ es

with_pending-extensions : (k : ℕ) (n : Negotiation) → (with_pending k n).extensions ≡ n.extensions
unfolding with_pending
with_pending-extensions k n =
    if_keeps (HasExtensions n.extensions) (k == 3) _ _ (λ e. refl) (λ e. refl)

try_complete-extensions : (n : Negotiation) → (try_complete n).extensions ≡ n.extensions
unfolding try_complete
try_complete-extensions n =
    if_keeps (HasExtensions n.extensions) (n.cpe_pending == 0 || ltb_ℤ (pos 0) n.cpe_extn_remaining)
      _ _ (λ e. refl) (λ e. with_pending-extensions _ n)

last_entry-extensions : (n : Negotiation) → (last_entry n).extensions ≡ n.extensions
unfolding last_entry
last_entry-extensions n =
    if_keeps (HasExtensions n.extensions) (wants_blockdefn (map_flags n.flags)) _ _ (λ e. refl)
      (λ e. refl)

after_loop-extensions : (n : Negotiation) → (after_loop n).extensions ≡ n.extensions
unfolding after_loop
after_loop-extensions n =
    let test = not n.customblock_pkt_sent && n.flags.extn_customblocks in
    let m = if test then record n { customblock_pkt_sent = true } else n in
    let first : m.extensions ≡ n.extensions =
      if_keeps (HasExtensions n.extensions) test _ _ (λ e. refl) (λ e. refl) in
    try_complete-extensions _
    ∙ if_keeps (HasExtensions n.extensions) (eq_ℤ m.cpe_extn_remaining (pos 0)) (last_entry m) m
        (λ e. last_entry-extensions m ∙ first) (λ e. first)

-- What `process_extentry` does to the extensions, where the process goes on: each is as it was, or
-- is enabled now, and then it is the one of the entry, is advertised, and may come late or comes while
-- the negotiation is pending.
pub process_extentry-AreKept :
    (extname : Bytes) (version : ℤ) (n m : Negotiation)
    → process_extentry extname version n ≡ some m
    → AreKept extname version (not (n.cpe_pending == 0)) n.extensions m.extensions
unfolding process_extentry
process_extentry-AreKept extname version n m h =
    ended (enable extname version pending n.extensions n.flags)
      (enable-KeptIf extname version pending n.extensions n.flags) h
  where
    pending : Bool
    pending = not (n.cpe_pending == 0)

    counted : Negotiation
    counted =
        if ltb_ℤ (pos 0) n.cpe_extn_remaining
        then record n { cpe_extn_remaining = n.cpe_extn_remaining -ℤ pos 1 }
        else n

    kept_by :
        (es : List Extension) (a : Negotiation)
        → some a ≡ some m
        → a.extensions ≡ es
        → AreKept extname version pending n.extensions es
        → AreKept extname version pending n.extensions m.extensions
    kept_by es a k e kept =
        let same_then : a ≡ m = cc in
        subst (AreKept extname version pending n.extensions)
          (sym e ∙ ap (λ (x : Negotiation). x.extensions) same_then) kept

    ended :
        (r : Enabling)
        → KeptIf extname version pending n.extensions r
        → (elim r [
          | repeated ↦ some counted
          | too_late ↦ none
          | looked es f ↦ some (after_loop (record counted { extensions = es; flags = f }))
        ])
          ≡ some m
        → AreKept extname version pending n.extensions m.extensions
    ended repeated kept k =
        kept_by n.extensions counted k
          (if_keeps (HasExtensions n.extensions) (ltb_ℤ (pos 0) n.cpe_extn_remaining) _ _
            (λ e. refl) (λ e. refl))
          (all_same extname version pending n.extensions)
    ended too_late kept k = let never : ⊥ = cc in elim never [ ]
    ended (looked es f) kept k = kept_by es _ k (after_loop-extensions _) kept
