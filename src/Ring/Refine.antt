-- ===== src/Ring/Refine.antt =====
-- Reading a ring refines the feed: whatever the order of writes, polls and new starts, a reader sees
-- the replies that the feed promises.
use mcchost.Base.{
  ℕ, suc, ◌+◌, ◌^◌, ◌<◌, ◌≡◌, inl, inr, refl, ap, ap₂, ◌∙◌, true, List, [], ◌∷◌, ◌++◌, arith, ltb,
  Bool-cases, length,
}
use mcchost.Ring.Step.{
  Ring, put, Cursor, wiped, reading, set_last, Fetched, idle, overflow, drained, got, fetch,
}
use mcchost.Ring.Feed.{
  Feed, off, live, lost, Event, write, poll, resync, Reply, feed_put, feed_poll, feed_run,
}
use mcchost.Ring.Follow.{
  IsValid, put-IsValid, queue_len-put, Live, Lapped, put-Live, put-Lapped_first, put-Lapped,
  fetch-Live_nil, fetch-Live_cons, fetch-Lapped,
}

-- One poll of a process, and its cursor afterwards: an overflow wipes it.
unfoldable pub reader_poll : {A : Type 0} → Cursor → Fetched A → Reply A × Cursor
reader_poll c idle = (Reply.silent, c)
reader_poll c overflow = (Reply.lapped, wiped)
reader_poll c drained = (Reply.nothing, c)
reader_poll c (got e c') = (Reply.entry e, c')

unfoldable pub ring_run : {A : Type 0} → A → Ring A → Cursor → List (Event A) → List (Reply A)
ring_run blank q c [] = []
ring_run blank q c (write e ∷ es) = ring_run blank (put q e) c es
ring_run blank q c (poll ∷ es) =
    let (r, c') = reader_poll c (fetch blank true q c) in r ∷ ring_run blank q c' es
ring_run blank q c (resync ∷ es) = ring_run blank q (set_last q) es

-- The cursor stands where the feed says, and `n` more writes cannot wrap the generation counter.
data Tracks {A : Type 0} (blank : A) (q : Ring A) (n : ℕ) : Cursor → Feed A → Type 0 where
  asleep : Tracks blank q n wiped off
  following :
      (id gen : ℕ) (p : List A) → Live blank q id gen p → Tracks blank q n (reading id gen) (live p)
  behind :
      (id gen d : ℕ)
      → Lapped blank q id gen d
      → d + n < 2 ^ 32
      → Tracks blank q n (reading id gen) lost

module _ {A : Type 0} (blank : A) where
  put-Tracks :
      (q : Ring A) (e : A) (n : ℕ) (c : Cursor) (f : Feed A)
      → IsValid q
      → suc n < 2 ^ 32
      → Tracks blank q (suc n) c f
      → Tracks blank (put q e) n c (feed_put q.queue_len f e)
  unfolding feed_put
  put-Tracks q e n c f v h asleep = asleep
  put-Tracks q e n c f v h (following id gen p l) =
      elim (Bool-cases (ltb (suc (length p)) q.queue_len)) [
        | inl room ↦
            rw room
              (following id gen (p ++ e ∷ []) (put-Live blank q e id gen p v l (ground arith)))
        | inr full ↦
            rw full (
              behind id gen 1 (put-Lapped_first blank q e id gen p v l (ground arith))
                (omega arith))
      ]
  put-Tracks q e n c f v h (behind id gen d l m) =
      let (d', l', le) = put-Lapped blank q e id gen d v l (omega arith) in
      behind id gen d' l' (omega arith)

  poll-Tracks :
      (q : Ring A) (n : ℕ) (c : Cursor) (f : Feed A)
      → IsValid q
      → Tracks blank q (suc n) c f
      → let (r, c') = reader_poll c (fetch blank true q c) in
        let (s, f') = feed_poll f in (r ≡ s) × Tracks blank q n c' f'
  unfolding feed_poll reader_poll
  poll-Tracks q n c f v asleep = (unfold fetch in refl, unfold fetch in asleep)
  poll-Tracks q n c f v (following id gen [] l) =
      rw (fetch-Live_nil blank q id gen v l) (refl, following id gen [] l)
  poll-Tracks q n c f v (following id gen (e ∷ p) l) =
      let (id', gen', got_e, l') = fetch-Live_cons blank q id gen e p v l in
      rw got_e (refl, following id' gen' p l')
  poll-Tracks q n c f v (behind id gen d l m) =
      rw (fetch-Lapped blank q id gen d v l) (refl, asleep)

  set_last-Tracks : (q : Ring A) (n : ℕ) → IsValid q → Tracks blank q n (set_last q) (live [])
  unfolding set_last
  set_last-Tracks q n v = following q.curr_offset q.generation [] (ground arith)

  ring_run_lem :
      (es : List (Event A)) (q : Ring A) (c : Cursor) (f : Feed A)
      → IsValid q
      → length es + 1 < 2 ^ 32
      → Tracks blank q (length es) c f
      → ring_run blank q c es ≡ feed_run q.queue_len f es
  unfolding ring_run feed_run
  ring_run_lem [] q c f v h t = refl
  ring_run_lem (write e ∷ es) q c f v h t =
      ring_run_lem es (put q e) c (feed_put q.queue_len f e) (put-IsValid q e v) (omega arith)
        (put-Tracks q e (length es) c f v (omega arith) t)
      ∙ ap (λ k. feed_run k (feed_put q.queue_len f e) es) (queue_len-put q e)
  ring_run_lem (poll ∷ es) q c f v h t =
      let (same, t') = poll-Tracks q (length es) c f v t in
      ap₂ ◌∷◌ same (ring_run_lem es q _ _ v (omega arith) t')
  ring_run_lem (resync ∷ es) q c f v h t =
      ring_run_lem es q (set_last q) (live []) v (omega arith) (set_last-Tracks q (length es) v)

-- A reader that starts at the writer's position sees, over any sequence of fewer than 2 ^ 32 - 1
-- writes, polls and new starts on a sound ring, exactly what the feed promises: every entry written
-- since, once and in order, until as many are unread as the ring holds; then one report of the
-- overflow, and nothing until it starts anew.
pub ring_run-feed_run :
    {A : Type 0} (blank : A) (es : List (Event A)) (q : Ring A)
    → IsValid q
    → length es + 1 < 2 ^ 32
    → ring_run blank q (set_last q) es ≡ feed_run q.queue_len (live []) es
ring_run-feed_run blank es q v h =
    ring_run_lem blank es q (set_last q) (live []) v h (set_last-Tracks blank q (length es) v)
