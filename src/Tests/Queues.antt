-- ===== src/Tests/Queues.antt =====
-- A ring of three entries, its reader and its feed.
use mcchost.Base.{ℕ, ◌≡◌, refl, List, [], ◌∷◌, arith}
use mcchost.Ring.{Ring, set_last, put, fetch}
use mcchost.Ring.Feed.{live, Event, write, poll, resync, Reply, feed_run}
use mcchost.Ring.Follow.{IsValid}
use mcchost.Ring.Refine.{reader_poll, ring_run, ring_run-feed_run}

abbrev small_ring : Ring ℕ
small_ring = record { generation = 5; curr_offset = 2; queue_len = 3; updates = 0 ∷ 0 ∷ 0 ∷ [] }

small_ring-IsValid : IsValid small_ring
small_ring-IsValid = record {
  offset_in = omega arith;
  room = omega arith;
  len_fits = omega arith;
  generation_fits = omega arith;
}

abbrev some_events : List (Event ℕ)
some_events =
    write 7
    ∷ write 8
    ∷ poll
    ∷ poll
    ∷ poll
    ∷ write 1
    ∷ write 2
    ∷ write 3
    ∷ poll
    ∷ poll
    ∷ resync
    ∷ write 9
    ∷ poll
    ∷ []

some_events_run :
    ring_run 0 small_ring (set_last small_ring) some_events
    ≡ Reply.entry 7
      ∷ Reply.entry 8
      ∷ Reply.nothing
      ∷ Reply.lapped
      ∷ Reply.silent
      ∷ Reply.entry 9
      ∷ []
unfolding ring_run reader_poll fetch set_last put
some_events_run = refl

ring_run-feed_run_example :
    ring_run 0 small_ring (set_last small_ring) some_events ≡ feed_run 3 (live []) some_events
ring_run-feed_run_example =
    ring_run-feed_run 0 some_events small_ring small_ring-IsValid (omega arith)
