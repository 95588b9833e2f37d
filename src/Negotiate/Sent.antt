-- ===== src/Negotiate/Sent.antt =====
-- A connection from its first extension on, and the block numbers that it sends.
use mcchost.Base.{
  ℕ, zero, suc, ◌+◌, ◌≤◌, ◌≡◌, subst, Bool, false, not, ◌&&◌, ◌||◌, Option, none, some, List, [],
  ◌∷◌, ltb, if◌then◌else◌, if_keeps, Bool-cases, inl, inr, arith,
}
use mcchost.Base.Int.{ℤ}
use mcchost.Sessions.Slots.{Bytes}
use mcchost.Packet.Config.{Config}
use mcchost.Packet.Encode.{nb_block_t}
use mcchost.Convert.{Limits, block_convert}
use mcchost.Convert.Bounds.{block_read, block_read-nb_block_t}
use mcchost.Negotiate.Entries.{Negotiation, process_extentry, custblock, extinfo}
use mcchost.Negotiate.Definitions.{
  Definitions, first_defined, below_high, plain_limit, definitions_limit,
}
use mcchost.Negotiate.Agreed.{
  IsAgreed, AgreedIf, process_extentry-AgreedIf, custblock-IsAgreed, extinfo-AgreedIf,
}

first_defined_bound : (l : Definitions) (k b : ℕ) → first_defined l k b ≤ b + k
unfolding first_defined
first_defined_bound l zero b = omega arith
first_defined_bound l (suc k) b =
    let next = first_defined_bound l k (suc b) in
    elim (Bool-cases (l.is_defined b)) [
      | inl here ↦ rw here (omega arith)
      | inr other ↦ rw other (omega (arith, next))
    ]

below_high_bound : (l : Definitions) (k b limit : ℕ) → below_high l k b limit ≤ limit
unfolding below_high
below_high_bound l zero b limit = omega arith
below_high_bound l (suc k) b limit =
    let next =
      below_high_bound l k (suc b)
        (if l.is_defined b && l.has_high_texture b && ltb b limit then b else limit) in
    elim (Bool-cases (l.is_defined b && l.has_high_texture b && ltb b limit)) [
      | inl high ↦ ground (arith, high, next)
      | inr other ↦ ground (arith, other, next)
    ]

plain_limit_bound : (l : Definitions) (known : Bool) (limit : ℕ) → plain_limit l known limit ≤ limit
unfolding plain_limit
plain_limit_bound l known limit =
    let bound = first_defined_bound l (if ltb 50 limit && not known then 50 else limit) 0 in
    ground (arith, bound)

definitions_limit_bound :
    (l : Definitions) (extendtexno : Bool) (n : Negotiation)
    → IsAgreed n
    → (definitions_limit l extendtexno n).level_block_limit ≤ n.client_block_limit
unfolding definitions_limit
definitions_limit_bound l extendtexno n h =
    let defines = n.flags.extn_blockdefn in
    let begun =
      if not defines || not n.customblock_enabled
      then plain_limit l n.customblock_enabled n.client_block_limit
      else n.level_block_limit in
    let started : begun ≤ n.client_block_limit =
      if_keeps (λ (k : ℕ). k ≤ n.client_block_limit) (not defines || not n.customblock_enabled) _ _
        (λ e. plain_limit_bound l n.customblock_enabled n.client_block_limit)
        (λ e. (h.shown (ground (arith, e))).1) in
    if_keeps (λ (k : ℕ). k ≤ n.client_block_limit) (not defines || extendtexno) _ _ (λ e. started)
      (λ e. omega (arith, below_high_bound l n.client_block_limit 0 begun, started))

definitions_limit-IsAgreed :
    (l : Definitions) (extendtexno : Bool) (n : Negotiation)
    → IsAgreed n
    → IsAgreed (definitions_limit l extendtexno n)
unfolding definitions_limit
definitions_limit-IsAgreed l extendtexno n h =
    let bound = definitions_limit_bound l extendtexno n h in
    record { bedrock = h.bedrock; fits = h.fits; shown = λ on. ((h.shown on).0, bound) }

-- What a client says, and the levels it is sent.
pub data Event : Type 0 where
  says_extinfo : ℤ → Event
  says_extentry : Bytes → ℤ → Event
  says_custblock : ℤ → Event
  gets_definitions : Definitions → Bool → Event

unfoldable pub happen : Event → Negotiation → Option Negotiation
happen (says_extinfo count) n = extinfo count n
happen (says_extentry name version) n = process_extentry name version n
happen (says_custblock version) n = some (custblock version n)
happen (gets_definitions l extendtexno) n = some (definitions_limit l extendtexno n)

abbrev pub then_all : (Negotiation → Option Negotiation) → Option Negotiation → Option Negotiation
then_all k none = none
then_all k (some n) = k n

unfoldable pub happen_all : List Event → Negotiation → Option Negotiation
unfolding happen
happen_all [] n = some n
happen_all (e ∷ es) n = then_all (λ m. happen_all es m) (happen e n)

happen-AgreedIf : (e : Event) (n : Negotiation) → IsAgreed n → AgreedIf (happen e n)
unfolding happen
happen-AgreedIf (says_extinfo count) n h = extinfo-AgreedIf count n h
happen-AgreedIf (says_extentry name version) n h = process_extentry-AgreedIf name version n h
happen-AgreedIf (says_custblock version) n h = custblock-IsAgreed version n h
happen-AgreedIf (gets_definitions l extendtexno) n h = definitions_limit-IsAgreed l extendtexno n h

then_all-AgreedIf :
    (k : Negotiation → Option Negotiation) (o : Option Negotiation)
    → ((m : Negotiation) → IsAgreed m → AgreedIf (k m))
    → AgreedIf o
    → AgreedIf (then_all k o)
then_all-AgreedIf k none f h = tt
then_all-AgreedIf k (some m) f h = f m h

happen_all-AgreedIf : (es : List Event) (n : Negotiation) → IsAgreed n → AgreedIf (happen_all es n)
unfolding happen_all
happen_all-AgreedIf [] n h = h
happen_all-AgreedIf (e ∷ es) n h =
    then_all-AgreedIf (λ m. happen_all es m) (happen e n) (λ m k. happen_all-AgreedIf es m k)
      (happen-AgreedIf e n h)

-- A client that has the numbers of a level now.
pub record IsConfigured (n : Negotiation) (cfg : Config) (g : Limits) : Type 0 where
  pub same_wide : cfg.extn_extendblockno ≡ n.flags.extn_extendblockno
  pub same_level : g.level_block_limit ≡ n.level_block_limit
  pub same_client : g.client_block_limit ≡ n.client_block_limit

-- Whatever extensions a client says it has, in whatever order and however often, and whatever levels
-- came before: after `send_block_definitions` the client reads each block number as it was
-- converted. The client starts with a limit of 8 to 256 and without block definitions.
pub block_read-definitions_limit :
    (events : List Event) (n0 n : Negotiation) (l : Definitions) (extendtexno : Bool) (cfg : Config)
    (g : Limits) (b : ℕ)
    → 8 ≤ n0.client_block_limit
    → n0.client_block_limit ≤ 256
    → n0.flags.extn_blockdefn ≡ false
    → happen_all events n0 ≡ some n
    → IsConfigured (definitions_limit l extendtexno n) cfg g
    → block_read cfg (nb_block_t cfg (block_convert g b)) ≡ block_convert g b
unfolding definitions_limit
block_read-definitions_limit events n0 n l extendtexno cfg g b low high no_defn runs conf =
    let begun : IsAgreed n0 = record {
      bedrock = low;
      fits = ground (arith, high);
      shown = λ on. (let never : ⊥ = cc in elim never [ ]);
    } in
    let agreed : IsAgreed n = subst AgreedIf runs (happen_all-AgreedIf events n0 begun) in
    let bound = definitions_limit_bound l extendtexno n agreed in
    block_read-nb_block_t cfg g b (omega (arith, bound, conf.same_level, conf.same_client))
      (omega (arith, agreed.bedrock, conf.same_client))
      (ground (arith, agreed.fits, conf.same_client, conf.same_wide))
