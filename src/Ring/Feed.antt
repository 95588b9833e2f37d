-- ===== src/Ring/Feed.antt =====
-- What a queue promises one reader, with no array, offset or generation: the entries written since
-- its cursor was set, oldest first, until it has fallen a whole queue behind.
use mcchost.Base.{ℕ, suc, List, [], ◌∷◌, ◌++◌, ltb, if◌then◌else◌, length}

pub data Feed (A : Type 0) : Type 0 where
  off : Feed A
  live : List A → Feed A
  lost : Feed A

-- What the reader and the writers of a queue do, in the order in which the lock lets them.
pub data Event (A : Type 0) : Type 0 where
  write : A → Event A
  poll : Event A
  resync : Event A

-- What a poll shows.
pub data Reply (A : Type 0) : Type 0 where
  silent nothing lapped : Reply A
  entry : A → Reply A

module _ {A : Type 0} where
  unfoldable pub feed_put : ℕ → Feed A → A → Feed A
  feed_put len off e = off
  feed_put len (live p) e = if ltb (suc (length p)) len then live (p ++ e ∷ []) else lost
  feed_put len lost e = lost

  unfoldable pub feed_poll : Feed A → Reply A × Feed A
  feed_poll off = (Reply.silent, off)
  feed_poll (live []) = (Reply.nothing, live [])
  feed_poll (live (e ∷ p)) = (Reply.entry e, live p)
  feed_poll lost = (Reply.lapped, off)

  unfoldable pub feed_run : ℕ → Feed A → List (Event A) → List (Reply A)
  feed_run len f [] = []
  feed_run len f (write e ∷ es) = feed_run len (feed_put len f e) es
  feed_run len f (poll ∷ es) = let (r, f') = feed_poll f in r ∷ feed_run len f' es
  feed_run len f (resync ∷ es) = feed_run len (live []) es
