-- ===== src/Negotiate/Agreed.antt =====
-- What the negotiation leaves of the limits.
use mcchost.Base.{
  ℕ, ◌≤◌, ◌≡◌, ◌∙◌, refl, sym, ap, subst, Bool, true, false, not, ◌&&◌, ◌||◌, Option, none, some,
  List, [], ◌==◌, if◌then◌else◌, if_keeps, Bool-cases, inl, inr, arith,
}
use mcchost.Base.Int.{ℤ, pos, ◌-ℤ◌, ltb_ℤ, eq_ℤ}
use mcchost.Sessions.Slots.{Bytes}
use mcchost.Negotiate.Entries.{
  Extension, Flags, Negotiation, Enabling, repeated, too_late, looked, enable, map_flags,
  wants_blockdefn, raised_limit, last_entry, with_pending, try_complete, after_loop,
  process_extentry, custblock, extinfo,
}
use mcchost.Negotiate.Grown.{Grows, Grown, enable-Grown}

-- The limits suit the flags.
pub record IsAgreed (n : Negotiation) : Type 0 where
  pub bedrock : 8 ≤ n.client_block_limit
  pub fits : n.client_block_limit ≤ (if n.flags.extn_extendblockno then 1024 else 256)
  pub shown :
      n.flags.extn_blockdefn ≡ true
      → (66 ≤ n.client_block_limit) × (n.level_block_limit ≤ n.client_block_limit)

-- The limits and flags that a step leaves alone.
record IsAlike (n m : Negotiation) : Type 0 where
  same_flags : m.flags ≡ n.flags
  same_client : m.client_block_limit ≡ n.client_block_limit
  same_level : m.level_block_limit ≡ n.level_block_limit

alike-IsAgreed : (n m : Negotiation) → IsAlike n m → IsAgreed n → IsAgreed m
alike-IsAgreed n m s h = record {
  bedrock = omega (arith, h.bedrock, s.same_client);
  fits =
      subst (λ (f : Flags). m.client_block_limit ≤ (if f.extn_extendblockno then 1024 else 256))
        (sym s.same_flags) (ground (arith, s.same_client, h.fits));
  shown = λ on.
      (let old = h.shown (sym (ap (λ (f : Flags). f.extn_blockdefn) s.same_flags) ∙ on) in
        (omega (arith, old.0, s.same_client), omega (arith, old.1, s.same_client, s.same_level)));
}

with_pending-IsAlike : (k : ℕ) (n : Negotiation) → IsAlike n (with_pending k n)
unfolding with_pending
with_pending-IsAlike k n =
    if_keeps (IsAlike n) (k == 3) _ _
      (λ h. record { same_flags = refl; same_client = refl; same_level = refl })
      (λ h. record { same_flags = refl; same_client = refl; same_level = refl })

try_complete-IsAgreed : (n : Negotiation) → IsAgreed n → IsAgreed (try_complete n)
unfolding try_complete
try_complete-IsAgreed n h =
    if_keeps IsAgreed (n.cpe_pending == 0 || ltb_ℤ (pos 0) n.cpe_extn_remaining) _ _ (λ e. h)
      (λ e. alike-IsAgreed n _ (with_pending-IsAlike _ n) h)

raised_bounds :
    (f : Flags) (limit : ℕ)
    → limit ≤ (if f.extn_extendblockno then 1024 else 256)
    → (256 ≤ raised_limit f limit)
      × (raised_limit f limit ≤ (if f.extn_extendblockno then 1024 else 256))
unfolding raised_limit
raised_bounds f limit h = ground (arith, h)

map_flags-Grows : (f : Flags) → Grows f (map_flags f)
unfolding map_flags
map_flags-Grows f = elim (Bool-cases f.extn_extendblockno) [
  | inl wide ↦ rw wide (record { blockno = λ h. refl; same_defn = refl })
  | inr narrow ↦ rw narrow (record { blockno = λ h. h; same_defn = refl })
]

map_flags_blockno : (f : Flags) → (map_flags f).extn_extendblockno ≡ f.extn_extendblockno
unfolding map_flags
map_flags_blockno f = ground arith

last_entry-IsAgreed : (n : Negotiation) → IsAgreed n → IsAgreed (last_entry n)
unfolding last_entry
last_entry-IsAgreed n h =
    let wide = map_flags_blockno n.flags in
    let fits : n.client_block_limit
        ≤ (if (map_flags n.flags).extn_extendblockno then 1024 else 256) =
      rw wide h.fits in
    let bounds = raised_bounds (map_flags n.flags) n.client_block_limit fits in
    if_keeps IsAgreed (wants_blockdefn (map_flags n.flags)) _ _
      (λ e. record {
        bedrock = omega (arith, bounds.0);
        fits = bounds.1;
        shown = λ on. (omega (arith, bounds.0), omega arith);
      })
      (λ e. record {
        bedrock = h.bedrock;
        fits = fits;
        shown = λ on.
            (let old = h.shown (sym (map_flags-Grows n.flags).same_defn ∙ on) in (old.0, old.0));
      })

after_loop-IsAgreed : (n : Negotiation) → IsAgreed n → IsAgreed (after_loop n)
unfolding after_loop
after_loop-IsAgreed n h =
    let sent = record n { customblock_pkt_sent = true } in
    let m = if not n.customblock_pkt_sent && n.flags.extn_customblocks then sent else n in
    let same : IsAgreed m =
      if_keeps IsAgreed (not n.customblock_pkt_sent && n.flags.extn_customblocks) sent n
        (λ e.
          alike-IsAgreed n sent
            (record { same_flags = refl; same_client = refl; same_level = refl }) h)
        (λ e. h) in
    try_complete-IsAgreed _ (
      if_keeps IsAgreed (eq_ℤ m.cpe_extn_remaining (pos 0)) (last_entry m) m
        (λ e. last_entry-IsAgreed m same) (λ e. same))

grown-IsAgreed :
    (n : Negotiation) (es : List Extension) (f : Flags)
    → Grows n.flags f
    → IsAgreed n
    → IsAgreed (record n { extensions = es; flags = f })
grown-IsAgreed n es f g h = record {
  bedrock = h.bedrock;
  fits = wider n.flags.extn_extendblockno f.extn_extendblockno g.blockno h.fits;
  shown = λ on. h.shown (sym g.same_defn ∙ on);
}
  where
    wider :
        (a b : Bool)
        → (a ≡ true → b ≡ true)
        → n.client_block_limit ≤ (if a then 1024 else 256)
        → n.client_block_limit ≤ (if b then 1024 else 256)
    wider true b k i = rw (k refl) i
    wider false true k i = omega (arith, i)
    wider false false k i = i

abbrev pub AgreedIf : Option Negotiation → Type 0
AgreedIf none = Unit
AgreedIf (some n) = IsAgreed n

pub process_extentry-AgreedIf :
    (extname : Bytes) (version : ℤ) (n : Negotiation)
    → IsAgreed n
    → AgreedIf (process_extentry extname version n)
unfolding process_extentry
process_extentry-AgreedIf extname version n h =
    ended (enable extname version (not (n.cpe_pending == 0)) n.extensions n.flags)
      (enable-Grown extname version (not (n.cpe_pending == 0)) n.extensions n.flags)
  where
    counted : Negotiation
    counted =
        if ltb_ℤ (pos 0) n.cpe_extn_remaining
        then record n { cpe_extn_remaining = n.cpe_extn_remaining -ℤ pos 1 }
        else n

    counted_alike : IsAlike n counted
    counted_alike =
        if_keeps (IsAlike n) (ltb_ℤ (pos 0) n.cpe_extn_remaining) _ _
          (λ e. record { same_flags = refl; same_client = refl; same_level = refl })
          (λ e. record { same_flags = refl; same_client = refl; same_level = refl })

    ended :
        (r : Enabling)
        → Grown n.flags r
        → AgreedIf (elim r [
          | repeated ↦ some counted
          | too_late ↦ none
          | looked es f ↦ some (after_loop (record counted { extensions = es; flags = f }))
        ])
    ended repeated g = alike-IsAgreed n counted counted_alike h
    ended too_late g = tt
    ended (looked es f) g = after_loop-IsAgreed _ (
        grown-IsAgreed counted es f
          (subst (λ (k : Flags). Grows k f) (sym counted_alike.same_flags) g)
          (alike-IsAgreed n counted counted_alike h))

pub custblock-IsAgreed :
    (version : ℤ) (n : Negotiation) → IsAgreed n → IsAgreed (custblock version n)
unfolding custblock
custblock-IsAgreed version n h = alike-IsAgreed _ _ (with_pending-IsAlike _ _) (record {
  bedrock = ground (arith, h.bedrock);
  fits = ground (arith, h.fits);
  shown = λ on. (let old = h.shown on in (ground (arith, old.0), ground (arith, old.0, old.1)));
})

pub extinfo-AgreedIf : (count : ℤ) (n : Negotiation) → IsAgreed n → AgreedIf (extinfo count n)
unfolding extinfo
extinfo-AgreedIf count n h =
    if_keeps AgreedIf (n.cpe_pending == 0) _ _ (λ e. left n (pos 0) h)
      (λ e.
        if_keeps AgreedIf (ltb_ℤ (pos 0) count) _ _ (λ k. left n count h)
          (λ k. process_extentry-AgreedIf [] (pos 0) _ (left n count h)))
  where
    left : (m : Negotiation) (c : ℤ) → IsAgreed m → IsAgreed (record m { cpe_extn_remaining = c })
    left m c k =
        alike-IsAgreed m _ (record { same_flags = refl; same_client = refl; same_level = refl }) k
