-- ===== src/BlockQueue/Deliver.antt =====
-- What a client sends on is what was written to the queue, in order.
use mcchost.Base.{
  ℕ, zero, suc, ◌+◌, ◌^◌, ◌≤◌, ◌<◌, ◌≡◌, inl, inr, refl, ap, ◌∙◌, Bool, true, some, List, [], ◌∷◌,
  ◌++◌, append_assoc, append-nil, arith, ltb, ltb→lt, ltb→le, if◌then◌else◌, false, ==_refl,
  Bool-cases, length, length-append, take, drop,
}
use mcchost.Ring.{Cursor, wiped, reading, drained, got, overflow, fetch}
use mcchost.Ring.Follow.{
  IsValid, put-IsValid, queue_len-put, Live, Lapped, put-Live, put-Lapped, put-Lapped_first,
  fetch-Live_nil, fetch-Live_cons, fetch-Lapped,
}
use mcchost.BlockQueue.State.{Xyzb, blank, BlockQueue, Client}
use mcchost.BlockQueue.Open.{Created}
use mcchost.BlockQueue.Send.{store_update}
use mcchost.BlockQueue.Drain.{
  fetch_block, drain, Drained, Step, enough, empty, lapped, setblocks, stepped, send_queued_blocks,
}

-- A sound queue whose length has not changed since it last went round.
pub record IsSound (q : BlockQueue) : Type 0 where
  pub ring_valid : IsValid q.ring
  pub same_len : q.last_queue_len ≡ q.ring.queue_len

pub store_update-IsSound : (q : BlockQueue) (e : Xyzb) → IsSound q → IsSound (store_update q e)
unfolding store_update
store_update-IsSound q e s = record {
  ring_valid = put-IsValid q.ring e s.ring_valid;
  same_len = ground (arith, queue_len-put q.ring e);
}

pub queue_len-store_update :
    (q : BlockQueue) (e : Xyzb) → (store_update q e).ring.queue_len ≡ q.ring.queue_len
unfolding store_update
queue_len-store_update q e = queue_len-put q.ring e

-- Several updates in a row, from whichever processes.
abbrev pub store_all : BlockQueue → List Xyzb → BlockQueue
store_all q [] = q
store_all q (e ∷ es) = store_all (store_update q e) es

abbrev pub LiveAt : BlockQueue → ℕ → ℕ → List Xyzb → Type 0
LiveAt q id gen p = Live blank q.ring id gen p

store_update-Live :
    (q : BlockQueue) (e : Xyzb) (id gen : ℕ) (p : List Xyzb)
    → IsSound q
    → LiveAt q id gen p
    → suc (length p) < q.ring.queue_len
    → LiveAt (store_update q e) id gen (p ++ e ∷ [])
unfolding store_update
store_update-Live q e id gen p s l h = put-Live blank q.ring e id gen p s.ring_valid l h

pub store_all-Live :
    (es : List Xyzb) (q : BlockQueue) (id gen : ℕ) (p : List Xyzb)
    → IsSound q
    → LiveAt q id gen p
    → length p + length es < q.ring.queue_len
    → IsSound (store_all q es) × LiveAt (store_all q es) id gen (p ++ es)
store_all-Live [] q id gen p s l h = (s, rw append-nil l)
store_all-Live (e ∷ es) q id gen p s l h =
    let l' = store_update-Live q e id gen p s l (omega arith) in
    let (s'', l'') =
      store_all-Live es (store_update q e) id gen (p ++ e ∷ []) (store_update-IsSound q e s) l'
        (omega (arith, queue_len-store_update q e, length-append {0} p (e ∷ []))) in
    (s'', rw (append_assoc p (e ∷ []) es) at l'')

pub queue_len-store_all :
    (es : List Xyzb) (q : BlockQueue) → (store_all q es).ring.queue_len ≡ q.ring.queue_len
queue_len-store_all [] q = refl
queue_len-store_all (e ∷ es) q =
    queue_len-store_all es (store_update q e) ∙ queue_len-store_update q e

store_all-Lapped :
    (es : List Xyzb) (q : BlockQueue) (id gen d : ℕ)
    → IsSound q
    → Lapped blank q.ring id gen d
    → d + length es < 2 ^ 32
    → (d' : ℕ) × IsSound (store_all q es) × Lapped blank (store_all q es).ring id gen d'
store_all-Lapped [] q id gen d s l h = (d, s, l)
store_all-Lapped (e ∷ es) q id gen d s l h =
    let (d', l', le) = put-Lapped blank q.ring e id gen d s.ring_valid l (omega arith) in
    store_all-Lapped es (store_update q e) id gen d' (store_update-IsSound q e s)
      (unfold store_update in l') (omega arith)

-- As many writes as the ring has room for, beyond what was unread, lap the cursor.
pub store_all-Lapped_of_Live :
    (es : List Xyzb) (q : BlockQueue) (id gen : ℕ) (p : List Xyzb)
    → IsSound q
    → LiveAt q id gen p
    → q.ring.queue_len ≤ length p + length es
    → length es < 2 ^ 32
    → (d : ℕ) × IsSound (store_all q es) × Lapped blank (store_all q es).ring id gen d
store_all-Lapped_of_Live [] q id gen p s l h m = absurd (omega arith)
store_all-Lapped_of_Live (e ∷ es) q id gen p s l h m =
    elim (Bool-cases (ltb (suc (length p)) q.ring.queue_len)) [
      | inl room ↦
          store_all-Lapped_of_Live es (store_update q e) id gen (p ++ e ∷ [])
            (store_update-IsSound q e s) (store_update-Live q e id gen p s l (ltb→lt _ _ room))
            (omega (arith, queue_len-store_update q e, length-append {0} p (e ∷ []))) (omega arith)
      | inr full ↦
          store_all-Lapped es (store_update q e) id gen 1 (store_update-IsSound q e s)
            (unfold store_update in
              put-Lapped_first blank q.ring e id gen p s.ring_valid l (ltb→le _ _ full))
            (omega arith)
    ]

pub fetch_block-fetch :
    (q : BlockQueue) (c : Cursor) → IsSound q → fetch_block q c ≡ fetch blank true q.ring c
unfolding fetch_block
fetch_block-fetch q c s = rw (s.same_len, ==_refl)

drain_drained :
    (n : ℕ) (q : BlockQueue) (c : Cursor)
    → fetch_block q c ≡ drained
    → drain (suc n) q c ≡ record { updates = []; cursor = c; stop = empty }
unfolding drain
drain_drained n q c h = rw (h, drain)

drain_got :
    (n : ℕ) (q : BlockQueue) (c c' : Cursor) (e : Xyzb)
    → fetch_block q c ≡ got e c'
    → drain (suc n) q c ≡ record {
      updates = e ∷ (drain n q c').updates;
      cursor = (drain n q c').cursor;
      stop = (drain n q c').stop;
    }
unfolding drain
drain_got n q c c' e h = rw (h, drain)

drain_overflow :
    (n : ℕ) (q : BlockQueue) (c : Cursor)
    → fetch_block q c ≡ overflow
    → drain (suc n) q c ≡ record { updates = []; cursor = wiped; stop = lapped }
unfolding drain
drain_overflow n q c h = rw (h, drain)

-- The cursor, whether past the end of a feed or not, stands before the entries `p`.
abbrev pub Before : BlockQueue → Cursor → List Xyzb → Type 0
Before q wiped p = ⊥
Before q (reading id gen) p = LiveAt q id gen p

pub set_last-LiveAt :
    (q : BlockQueue) → IsSound q → LiveAt q q.ring.curr_offset q.ring.generation []
set_last-LiveAt q s = ground arith

pub drain-Live :
    (n : ℕ) (q : BlockQueue) (id gen : ℕ) (p : List Xyzb)
    → IsSound q
    → LiveAt q id gen p
    → ((drain n q (reading id gen)).updates ≡ take n p)
      × Before q (drain n q (reading id gen)).cursor (drop n p)
      × ((drain n q (reading id gen)).stop ≡ (if ltb (length p) n then empty else enough))
drain-Live zero q id gen p s l = unfold drain in (refl, l, ground arith)
drain-Live (suc n) q id gen [] s l =
    let h =
      fetch_block-fetch q (reading id gen) s ∙ fetch-Live_nil blank q.ring id gen s.ring_valid l in
    rw (drain_drained n q (reading id gen) h) (refl, l, ground arith)
drain-Live (suc n) q id gen (e ∷ p) s l =
    let (id', gen', got_e, l') = fetch-Live_cons blank q.ring id gen e p s.ring_valid l in
    let (us, at, st) = drain-Live n q id' gen' p s l' in
    let h = fetch_block-fetch q (reading id gen) s ∙ got_e in
    rw (drain_got n q (reading id gen) (reading id' gen') e h)
      (ap (◌∷◌ e) us, at, st ∙ ground arith)

pub drain-Lapped :
    (n : ℕ) (q : BlockQueue) (id gen d : ℕ)
    → IsSound q
    → Lapped blank q.ring id gen d
    → drain (suc n) q (reading id gen) ≡ record { updates = []; cursor = wiped; stop = lapped }
drain-Lapped n q id gen d s l =
    drain_overflow n q (reading id gen)
      (fetch_block-fetch q (reading id gen) s ∙ fetch-Lapped blank q.ring id gen d s.ring_valid l)

-- A client whose mapping is up to date and which waits for no reload.
abbrev pub watching : BlockQueue → Cursor → Client
watching q c = record {
  queue = some q;
  mmap_count = q.ring.queue_len;
  cursor = c;
  reload_pending = 0;
}

-- What the client does with the outcome of its loop.
abbrev pub conclude : BlockQueue → Drained → Step
conclude q out = stepped (setblocks out.updates) (elim out.stop [
  | lapped ↦ record (watching q out.cursor) { reload_pending = 100 }
  | _ ↦ watching q out.cursor
])

module _ (reopen : BlockQueue → Created) (named bytes_queued admin : Bool) where
  pub send_queued_blocks-drain :
      (q : BlockQueue) (id gen : ℕ)
      → send_queued_blocks reopen named bytes_queued admin (watching q (reading id gen))
        ≡ conclude q (drain 1024 q (reading id gen))
  unfolding send_queued_blocks
  send_queued_blocks-drain q id gen = ground arith

  pub send_queued_blocks_of_drain :
      (q : BlockQueue) (id gen : ℕ) (us : List Xyzb) (b : Bool)
      → (drain 1024 q (reading id gen)).updates ≡ us
      → (drain 1024 q (reading id gen)).stop ≡ (if b then empty else enough)
      → send_queued_blocks reopen named bytes_queued admin (watching q (reading id gen))
        ≡ stepped (setblocks us) (watching q (drain 1024 q (reading id gen)).cursor)
  send_queued_blocks_of_drain q id gen us true e h = send_queued_blocks-drain q id gen ∙ rw (e, h)
  send_queued_blocks_of_drain q id gen us false e h = send_queued_blocks-drain q id gen ∙ rw (e, h)
