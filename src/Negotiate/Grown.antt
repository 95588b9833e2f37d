-- ===== src/Negotiate/Grown.antt =====
-- The flags that an entry adds.
use mcchost.Base.{◌≡◌, ◌∙◌, refl, Bool, true, not, ◌&&◌, List, [], ◌∷◌, if_keeps}
use mcchost.Base.Int.{ℤ}
use mcchost.Sessions.Slots.{Bytes}
use mcchost.Negotiate.Entries.{
  Flag, customblocks, extendblockno, envmapappearance, envmapappearance2, envmapaspect,
  blockdefinitions, blockdefinitionsext, extplayerlist, other_flag, no_flag, Extension, Flags,
  set_flag, Enabling, repeated, too_late, looked, behind, enable, is_asked,
}

-- Flags are only added, but for those of EnvMapAppearance.
pub record Grows (f g : Flags) : Type 0 where
  pub blockno : f.extn_extendblockno ≡ true → g.extn_extendblockno ≡ true
  pub same_defn : g.extn_blockdefn ≡ f.extn_blockdefn

set_flag-Grows : (k : Flag) (f : Flags) → Grows f (set_flag k f)
unfolding set_flag
set_flag-Grows customblocks f = record { blockno = λ h. h; same_defn = refl }
set_flag-Grows extendblockno f = record { blockno = λ h. refl; same_defn = refl }
set_flag-Grows envmapappearance f = record { blockno = λ h. h; same_defn = refl }
set_flag-Grows envmapappearance2 f = record { blockno = λ h. h; same_defn = refl }
set_flag-Grows envmapaspect f = record { blockno = λ h. h; same_defn = refl }
set_flag-Grows blockdefinitions f = record { blockno = λ h. h; same_defn = refl }
set_flag-Grows blockdefinitionsext f = record { blockno = λ h. h; same_defn = refl }
set_flag-Grows extplayerlist f = record { blockno = λ h. h; same_defn = refl }
set_flag-Grows other_flag f = record { blockno = λ h. h; same_defn = refl }
set_flag-Grows no_flag f = record { blockno = λ h. h; same_defn = refl }

abbrev pub Grown : Flags → Enabling → Type 0
Grown f repeated = Unit
Grown f too_late = Unit
Grown f (looked es g) = Grows f g

behind-Grown : (e : Extension) (f : Flags) (r : Enabling) → Grown f r → Grown f (behind e r)
behind-Grown e f repeated h = tt
behind-Grown e f too_late h = tt
behind-Grown e f (looked es g) h = h

Grows-Grown : (f g : Flags) (r : Enabling) → Grows f g → Grown g r → Grown f r
Grows-Grown f g repeated h k = tt
Grows-Grown f g too_late h k = tt
Grows-Grown f g (looked es i) h k = record {
  blockno = λ b. k.blockno (h.blockno b);
  same_defn = k.same_defn ∙ h.same_defn;
}

module _ (extname : Bytes) (version : ℤ) where
  pub enable-Grown :
      (pending : Bool) (es : List Extension) (f : Flags)
      → Grown f (enable extname version pending es f)
  unfolding enable
  enable-Grown pending [] f = record { blockno = λ h. h; same_defn = refl }
  enable-Grown pending (e ∷ es) f =
      let skipped = behind-Grown e f _ (enable-Grown pending es f) in
      let taken =
        behind-Grown (record e { enabled = true }) f _
          (Grows-Grown f (set_flag e.enabled_flag f) _ (set_flag-Grows e.enabled_flag f)
            (enable-Grown pending es (set_flag e.enabled_flag f))) in
      if_keeps (Grown f) (not (is_asked extname version e)) _ _ (λ h. skipped)
        (λ h.
          if_keeps (Grown f) e.enabled _ _ (λ k. tt)
            (λ k.
              if_keeps (Grown f) (e.nolate && not pending) _ _ (λ l. tt)
                (λ l.
                  if_keeps (Grown f) e.disabled _ _
                    (λ m. record { blockno = λ x. x; same_defn = refl }) (λ m. taken))))
