-- ===== src/BlockQueue/Collect.antt =====
-- `fetch_queued_blocks`, which map saving uses to catch the changes made while it was at work.
use mcchost.Base.{
  ℕ, zero, suc, ◌+◌, ◌<◌, ◌≡◌, ◌∙◌, ap, Bool, true, leb, if◌then◌else◌, some, List, [], ◌∷◌, ◌++◌,
  append-nil, append_assoc, arith, length, Bool-cases, inl, inr,
}
use mcchost.Ring.{Cursor, reading, got, drained, set_last}
use mcchost.Ring.Follow.{fetch-Live_nil, fetch-Live_cons}
use mcchost.BlockQueue.State.{Xyzb, blank, BlockQueue}
use mcchost.BlockQueue.Open.{Created}
use mcchost.BlockQueue.Drain.{fetch_block, enlarged, collect, fetched, fetch_queued_blocks}
use mcchost.BlockQueue.Deliver.{
  IsSound, LiveAt, Before, fetch_block-fetch, store_all, store_all-Live, set_last-LiveAt,
  queue_len-store_all, watching,
}

abbrev pub plenty : ℕ → Bool
plenty n = true

collect_drained :
    (n : ℕ) (q : BlockQueue) (c : Cursor) (count size : ℕ) (out : List Xyzb)
    → fetch_block q c ≡ drained
    → collect plenty (suc n) q c count size out ≡ record { array = some out; cursor = c }
unfolding collect
collect_drained n q c count size out h = rw (h, collect)

collect_got :
    (n : ℕ) (q : BlockQueue) (c c' : Cursor) (e : Xyzb) (count size : ℕ) (out : List Xyzb)
    → fetch_block q c ≡ got e c'
    → collect plenty (suc n) q c count size out
      ≡ collect plenty n q c'
          (count + 1)
          (if leb size count then enlarged size else size)
          (out ++ e ∷ [])
unfolding collect
collect_got n q c c' e count size out h =
    rw (h, collect) (elim (Bool-cases (leb size count)) [ inl full ↦ rw full | inr room ↦ rw room ])

collect-Live :
    (n : ℕ) (q : BlockQueue) (id gen : ℕ) (p : List Xyzb) (count size : ℕ) (out : List Xyzb)
    → IsSound q
    → LiveAt q id gen p
    → length p < n
    → (c : Cursor) × (collect plenty n q (reading id gen) count size out
        ≡ record { array = some (out ++ p); cursor = c })
      × Before q c []
collect-Live zero q id gen p count size out s l h = absurd (omega arith)
collect-Live (suc n) q id gen [] count size out s l h =
    let e =
      fetch_block-fetch q (reading id gen) s ∙ fetch-Live_nil blank q.ring id gen s.ring_valid l in
    (reading id gen, rw append-nil (collect_drained n q (reading id gen) count size out e), l)
collect-Live (suc n) q id gen (x ∷ p) count size out s l h =
    let (id', gen', got_x, l') = fetch-Live_cons blank q.ring id gen x p s.ring_valid l in
    let e = fetch_block-fetch q (reading id gen) s ∙ got_x in
    let (c, r, at) = collect-Live n q id' gen' p (count + 1) _ (out ++ x ∷ []) s l' (omega arith) in
    (
      c,
      collect_got n q (reading id gen) (reading id' gen') x count size out e
          ∙ r
          ∙ ap (λ us. record { array = some us; cursor = c }) (append_assoc out (x ∷ []) p),
      at,
    )

fetch_queued_blocks-collect :
    (reopen : BlockQueue → Created) (named : Bool) (q : BlockQueue) (id gen : ℕ)
    → let out = collect plenty q.ring.queue_len q (reading id gen) 0 0 [] in
      fetch_queued_blocks reopen named plenty (watching q (reading id gen))
      ≡ fetched out.array (watching q out.cursor)
unfolding fetch_queued_blocks
fetch_queued_blocks-collect reopen named q id gen = ground arith

-- Where memory is to be had, `fetch_queued_blocks` hands back all the changes made since its cursor
-- was set, in order, if they are fewer than the queue is long, and leaves the cursor at the writer's
-- place. Its loop ends, after at most `queue_len` rounds.
pub fetch_queued_blocks-store_all :
    (reopen : BlockQueue → Created) (named : Bool) (q : BlockQueue) (es : List Xyzb)
    → IsSound q
    → length es < q.ring.queue_len
    → (c : Cursor) × (fetch_queued_blocks reopen named plenty
          (watching (store_all q es) (set_last q.ring))
        ≡ fetched (some es) (watching (store_all q es) c))
      × Before (store_all q es) c []
unfolding set_last
fetch_queued_blocks-store_all reopen named q es s h =
    let q' = store_all q es in
    let (s', l) =
      store_all-Live es q q.ring.curr_offset q.ring.generation [] s (set_last-LiveAt q s)
        (omega arith) in
    let (c, r, at) =
      collect-Live q'.ring.queue_len q' q.ring.curr_offset q.ring.generation es 0 0 [] s' l
        (omega (arith, queue_len-store_all es q)) in
    (c, fetch_queued_blocks-collect reopen named q' q.ring.curr_offset q.ring.generation ∙ rw r, at)
