-- ===== src/BlockQueue/Broadcast.antt =====
-- From `send_update` in one process to `send_setblock_pkt` in another.
use mcchost.Base.{
  ℕ, ◌^◌, ◌≤◌, ◌<◌, ◌≡◌, ◌∙◌, refl, ap, Bool, true, List, [], ◌∷◌, map, arith, length, length-map,
  take, drop,
}
use mcchost.Ring.{wiped, reading, set_last, Cursor}
use mcchost.BlockQueue.State.{Xyzb, xyzb, BlockQueue, MapProp, Client}
use mcchost.BlockQueue.Open.{Created}
use mcchost.BlockQueue.Send.{store_update, Sent, sent, no_queue, send_update}
use mcchost.BlockQueue.Drain.{drain, stepped, setblocks, send_queued_blocks}
use mcchost.BlockQueue.Deliver.{
  IsSound, store_all, store_all-Live, store_all-Lapped_of_Live, Before, drain-Live, drain-Lapped,
  watching, send_queued_blocks-drain, send_queued_blocks_of_drain, conclude, queue_len-store_update,
  set_last-LiveAt,
}

-- The arguments of a call of `send_update`, as they are stored.
abbrev pub stored : Xyzb → Xyzb
unfolding xyzb
stored e = xyzb e.x e.y e.z e.b

module _ (reopen : BlockQueue → Created) (named : Bool) (now : ℕ) where
  -- Calls of `send_update` by one process, one after the other.
  pub send_all : List Xyzb → MapProp → Client → Sent
  send_all [] prop c = sent prop c
  send_all (e ∷ es) prop c = elim (send_update reopen named now e.x e.y e.z e.b prop c) [
    | no_queue ↦ no_queue
    | sent prop' c' ↦ send_all es prop' c'
  ]

  send_update-watching :
      (e : Xyzb) (prop : MapProp) (q : BlockQueue) (c : Cursor)
      → send_update reopen named now e.x e.y e.z e.b prop (watching q c)
        ≡ sent
            (record prop { dirty_save = true; last_modified = now })
            (watching (store_update q (stored e)) c)
  unfolding send_update
  send_update-watching e prop q c = ground (arith, queue_len-store_update q (stored e))

  -- The properties after some calls: changed, if there was one.
  abbrev pub touched : List Xyzb → MapProp → MapProp
  touched [] prop = prop
  touched (e ∷ es) prop = record prop { dirty_save = true; last_modified = now }

  touched_twice :
      (es : List Xyzb) (prop : MapProp)
      → touched es (record prop { dirty_save = true; last_modified = now })
        ≡ record prop { dirty_save = true; last_modified = now }
  touched_twice [] prop = refl
  touched_twice (e ∷ es) prop = refl

  send_all-watching :
      (es : List Xyzb) (prop : MapProp) (q : BlockQueue) (c : Cursor)
      → send_all es prop (watching q c)
        ≡ sent (touched es prop) (watching (store_all q (map stored es)) c)
  unfolding send_all
  send_all-watching [] prop q c = refl
  send_all-watching (e ∷ es) prop q c =
      rw (send_update-watching e prop q c, send_all)
        (send_all-watching es _ (store_update q (stored e)) c
          ∙ ap (λ p. sent p (watching (store_all (store_update q (stored e)) (map stored es)) c))
              (touched_twice es prop))

  module _ (bytes_queued admin : Bool) where
    -- One process sends block changes, fewer than the queue is long, by `send_update`. Another, whose
    -- cursor stood at the writer's place before, then sends exactly those changes on to its player, in
    -- order and as stored (each number modulo 2 ^ 16), 1024 at most in one call; the rest stay before
    -- its cursor. The level is marked as changed.
    pub broadcast :
        (es : List Xyzb) (prop : MapProp) (q : BlockQueue) (writer : Cursor)
        → IsSound q
        → length es < q.ring.queue_len
        → (q' : BlockQueue) × (c : Cursor) × (send_all es prop (watching q writer)
            ≡ sent (touched es prop) (watching q' writer))
          × (send_queued_blocks reopen named bytes_queued admin (watching q' (set_last q.ring))
              ≡ stepped (setblocks (take 1024 (map stored es))) (watching q' c))
          × Before q' c (drop 1024 (map stored es))
    unfolding set_last
    broadcast es prop q writer s h =
        let p : List Xyzb = map stored es in
        let q' = store_all q p in
        let (s', l) =
          store_all-Live p q q.ring.curr_offset q.ring.generation [] s (set_last-LiveAt q s)
            (omega (arith, length-map stored es)) in
        let (us, at, st) = drain-Live 1024 q' q.ring.curr_offset q.ring.generation p s' l in
        (
          q',
          (drain 1024 q' (reading q.ring.curr_offset q.ring.generation)).cursor,
          send_all-watching es prop q writer,
          send_queued_blocks_of_drain reopen named bytes_queued admin q' q.ring.curr_offset
              q.ring.generation (take 1024 p) _ us st,
          at,
        )

    -- If the other process sends at least as many changes as the queue is long, and fewer than
    -- 2 ^ 32, before the client looks, then the client sends no change, gives up its place and waits
    -- a second for a reload of the whole map.
    pub broadcast_lapped :
        (es : List Xyzb) (prop : MapProp) (q : BlockQueue) (writer : Cursor)
        → IsSound q
        → q.ring.queue_len ≤ length es
        → length es < 2 ^ 32
        → (q' : BlockQueue) × (send_all es prop (watching q writer)
            ≡ sent (touched es prop) (watching q' writer))
          × (send_queued_blocks reopen named bytes_queued admin (watching q' (set_last q.ring))
              ≡ stepped [] (record (watching q' wiped) { reload_pending = 100 }))
    unfolding set_last
    broadcast_lapped es prop q writer s h m =
        let p : List Xyzb = map stored es in
        let q' = store_all q p in
        let (d, s', l) =
          store_all-Lapped_of_Live p q q.ring.curr_offset q.ring.generation [] s
            (set_last-LiveAt q s) (omega (arith, length-map stored es))
            (omega (arith, length-map stored es)) in
        (
          q',
          send_all-watching es prop q writer,
          send_queued_blocks-drain reopen named bytes_queued admin q' q.ring.curr_offset
                q.ring.generation
              ∙ ap (conclude q') (drain-Lapped 1023 q' q.ring.curr_offset q.ring.generation d s' l)
              ∙ unfold setblocks in refl,
        )
