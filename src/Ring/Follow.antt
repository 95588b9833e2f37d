-- ===== src/Ring/Follow.antt =====
-- How a write moves the cursors of the readers of a ring, and what a reader then fetches: a cursor
-- is `Live` while the ring still holds all that it has not read, and `Lapped` from then on.
use mcchost.Base.{
  ℕ, zero, suc, ◌+◌, ◌^◌, ◌≤◌, ◌<◌, ◌≡◌, ◌⊎◌, inl, inr, refl, ap, ap₂, true, List, [], ◌∷◌, ◌++◌,
  arith, leb, ◌==◌, if◌then◌else◌, Bool-cases, u32, length, get_or, set, length-set,
  get_or-set_self, get_or-set_ne, length-append,
}
use mcchost.Ring.Step.{Ring, put, reading, overflow, drained, got, fetch}

-- The header of the shared memory is sound, and the array holds `queue_len` entries.
pub record IsValid {A : Type 0} (q : Ring A) : Type 0 where
  pub offset_in : q.curr_offset < q.queue_len
  pub room : q.queue_len ≤ length q.updates
  pub len_fits : q.queue_len < 2 ^ 32
  pub generation_fits : q.generation < 2 ^ 32

-- Writing keeps the header sound: the next write is inside the array again.
pub put-IsValid : {A : Type 0} (q : Ring A) (e : A) → IsValid q → IsValid (put q e)
unfolding put
put-IsValid q e v = ground (arith, length-set q.updates q.curr_offset e)

pub queue_len-put : {A : Type 0} (q : Ring A) (e : A) → (put q e).queue_len ≡ q.queue_len
unfolding put
queue_len-put q e = ground arith

abbrev pub next_index : ℕ → ℕ → ℕ
next_index len i = if suc i == len then 0 else suc i

-- The `k` entries from index `i` on, going round at `len`.
abbrev pub window : {A : Type 0} → A → List A → ℕ → ℕ → ℕ → List A
window blank us len i zero = []
window blank us len i (suc k) = get_or us i blank ∷ window blank us len (next_index len i) k

module _ {A : Type 0} (blank : A) where
  length-window : (us : List A) (len i k : ℕ) → length (window blank us len i k) ≡ k
  length-window us len i zero = refl
  length-window us len i (suc k) = ap suc (length-window us len (next_index len i) k)

  -- `o` is `k` steps round from `i`.
  abbrev Ahead : ℕ → ℕ → ℕ → ℕ → Type 0
  Ahead len i k o = (o ≡ i + k) ⊎ (o + len ≡ i + k)

  Ahead-next :
      (len i k o : ℕ) → i < len → o < len → Ahead len i (suc k) o → Ahead len (next_index len i) k o
  Ahead-next len i k o h g a = ground arith

  next_index-lt : (len i : ℕ) → i < len → next_index len i < len
  next_index-lt len i h = ground arith

  -- A write just past the window extends it by the entry.
  window-set :
      (us : List A) (len : ℕ) (e : A) (k i o : ℕ)
      → len ≤ length us
      → i < len
      → o < len
      → k < len
      → Ahead len i k o
      → window blank (set us o e) len i (suc k) ≡ window blank us len i k ++ e ∷ []
  window-set us len e zero i o r hi ho hk a =
      let same : o ≡ i = omega arith in
      rw same (ap (λ x. x ∷ []) (get_or-set_self us i e blank (omega arith)))
  window-set us len e (suc k) i o r hi ho hk a =
      ap₂ ◌∷◌ (get_or-set_ne us o i e blank (omega arith)) (
        window-set us len e k (next_index len i) o r (next_index-lt len i hi) ho (omega arith)
          (Ahead-next len i k o hi ho a))

  -- The cursor is at most one round behind, and the entries up to the writer's offset are `p`.
  pub record Live (q : Ring A) (id gen : ℕ) (p : List A) : Type 0 where
    pub id_in : id < q.queue_len
    pub gen_fits : gen < 2 ^ 32
    pub short : length p < q.queue_len
    pub place :
        ((gen ≡ q.generation) × (q.curr_offset ≡ id + length p))
        ⊎ ((q.generation ≡ u32 (gen + 1)) × (q.curr_offset + q.queue_len ≡ id + length p))
    pub shows : window blank q.updates q.queue_len id (length p) ≡ p

  -- The writer has come round to the cursor `d` generations later, too few for the counter to wrap.
  pub record Lapped (q : Ring A) (id gen d : ℕ) : Type 0 where
    pub gen_fits : gen < 2 ^ 32
    pub behind : q.generation ≡ u32 (gen + d)
    pub some_rounds : 1 ≤ d
    pub no_wrap : d < 2 ^ 32
    pub past : (2 ≤ d) ⊎ (id ≤ q.curr_offset)

  put-shows :
      (q : Ring A) (e : A) (id gen : ℕ) (p : List A)
      → IsValid q
      → Live q id gen p
      → window blank (put q e).updates q.queue_len id (length (p ++ e ∷ [])) ≡ p ++ e ∷ []
  unfolding put
  put-shows q e id gen p v l =
      rw (length-append {0} p (e ∷ []))
        (ground (arith, window-set q.updates q.queue_len e (length p) id q.curr_offset))

  pub put-Live :
      (q : Ring A) (e : A) (id gen : ℕ) (p : List A)
      → IsValid q
      → Live q id gen p
      → suc (length p) < q.queue_len
      → Live (put q e) id gen (p ++ e ∷ [])
  unfolding put
  put-Live q e id gen p v l h = ground (
    arith,
    length-append p (e ∷ []),
    length-set q.updates q.curr_offset e,
    put-shows q e id gen p v l,
    queue_len-put q e,
  )

  pub put-Lapped_first :
      (q : Ring A) (e : A) (id gen : ℕ) (p : List A)
      → IsValid q
      → Live q id gen p
      → q.queue_len ≤ suc (length p)
      → Lapped (put q e) id gen 1
  unfolding put
  put-Lapped_first q e id gen p v l h = ground arith

  pub put-Lapped :
      (q : Ring A) (e : A) (id gen d : ℕ)
      → IsValid q
      → Lapped q id gen d
      → d + 1 < 2 ^ 32
      → (d' : ℕ) × Lapped (put q e) id gen d' × (d' ≤ d + 1)
  unfolding put
  put-Lapped q e id gen d v l h = elim (Bool-cases (leb q.queue_len (u32 (q.curr_offset + 1)))) [
    | inl wraps ↦ (d + 1, ground arith, omega arith)
    | inr stays ↦ (d, ground arith, omega arith)
  ]

  pub fetch-Live_nil :
      (q : Ring A) (id gen : ℕ)
      → IsValid q
      → Live q id gen []
      → fetch blank true q (reading id gen) ≡ drained
  unfolding fetch
  fetch-Live_nil q id gen v l = ground arith

  pub fetch-Live_cons :
      (q : Ring A) (id gen : ℕ) (e : A) (p : List A)
      → IsValid q
      → Live q id gen (e ∷ p)
      → (id' : ℕ) × (gen' : ℕ) × (fetch blank true q (reading id gen) ≡ got e (reading id' gen'))
        × Live q id' gen' p
  unfolding fetch
  fetch-Live_cons q id gen e p v l = elim (Bool-cases (suc id == q.queue_len)) [
    | inl last ↦ (0, u32 (gen + 1), ground arith, ground arith)
    | inr more ↦ (suc id, gen, ground arith, ground arith)
  ]

  pub fetch-Lapped :
      (q : Ring A) (id gen d : ℕ)
      → IsValid q
      → Lapped q id gen d
      → fetch blank true q (reading id gen) ≡ overflow
  unfolding fetch
  fetch-Lapped q id gen d v l = ground arith
