-- ===== src/BlockQueue/OpenLaws.antt =====
-- What `create_block_queue` leaves in the shared file, whatever it found there.
use mcchost.Base.{
  ℕ, ◌-◌, ◌^◌, ◌≤◌, ◌<◌, ◌≡◌, refl, Bool, true, false, ltb, ◌==◌, ◌&&◌, if◌then◌else◌, arith,
  length, length-append, length-replicate, get_or-padded, replicate, get_or, Bool-cases, inl, inr,
}
use mcchost.Ring.Follow.{IsValid}
use mcchost.BlockQueue.State.{blank, BlockQueue, MapProp}
use mcchost.BlockQueue.Open.{
  capacity, allocate_shared, repair, wanted_len, grow, finish_open, Created, absent, died, opened,
  create_block_queue, min_queue,
}

-- The file is big enough for the entries asked for.
capacity_ge : (page n : ℕ) → 0 < page → n ≤ capacity page n
unfolding capacity
capacity_ge page n h = omega arith

length-allocate_shared :
    (page n : ℕ) (q : BlockQueue) → capacity page n ≤ length (allocate_shared page n q).ring.updates
unfolding allocate_shared
length-allocate_shared page n q =
    let us = q.ring.updates in
    let room = capacity page n in
    omega (
      arith,
      length-append {0} us (replicate (room - length us) blank),
      length-replicate {0} (room - length us) blank,
    )

queue_len-allocate_shared :
    (page n : ℕ) (q : BlockQueue) → (allocate_shared page n q).ring.queue_len ≡ q.ring.queue_len
unfolding allocate_shared
queue_len-allocate_shared page n q = refl

-- The header of a file holds numbers of 32 bits.
pub record IsHeader (q : BlockQueue) : Type 0 where
  pub generation_fits : q.ring.generation < 2 ^ 32
  pub offset_fits : q.ring.curr_offset < 2 ^ 32
  pub len_fits : q.ring.queue_len < 2 ^ 32

allocate_shared-IsHeader :
    (page n : ℕ) (q : BlockQueue) → IsHeader q → IsHeader (allocate_shared page n q)
unfolding allocate_shared
allocate_shared-IsHeader page n q h = omega arith

-- A header that `repair` has checked.
record IsRepaired (prop : MapProp) (q : BlockQueue) : Type 0 where
  generation_fits : q.ring.generation < 2 ^ 32
  offset_in : q.ring.curr_offset < q.ring.queue_len
  len_min : 250 ≤ q.ring.queue_len
  len_max : q.ring.queue_len < 2 ^ 31

repair-IsRepaired :
    (prop : MapProp) (q : BlockQueue)
    → prop.total_blocks < 2 ^ 31
    → IsHeader q
    → IsRepaired prop (repair prop q)
unfolding repair
repair-IsRepaired prop q t h = ground arith

allocate_shared-IsRepaired :
    (prop : MapProp) (page n : ℕ) (q : BlockQueue)
    → IsRepaired prop q
    → IsRepaired prop (allocate_shared page n q)
unfolding allocate_shared
allocate_shared-IsRepaired prop page n q r = omega arith

wanted_len_bounds :
    (prop : MapProp) (pkt_len : ℕ)
    → prop.last_map_download_size < 2 ^ 31
    → (250 ≤ wanted_len prop pkt_len) × (wanted_len prop pkt_len < 2 ^ 32)
unfolding wanted_len
wanted_len_bounds prop pkt_len h = ground arith

-- The ring that a successful opening leaves, with pages of `page` bytes.
pub record IsOpen (page : ℕ) (q : BlockQueue) (count : ℕ) : Type 0 where
  pub valid : IsValid q.ring
  pub counted : q.ring.queue_len ≡ count
  pub mapped : q.ring.queue_len ≤ capacity page count
  pub len_min : 250 ≤ count

abbrev pub Opens : ℕ → Created → Type 0
Opens page absent = Unit
Opens page died = Unit
Opens page (opened q n) = IsOpen page q n

finish_open-Opens :
    (page count : ℕ) (prop : MapProp) (q : BlockQueue)
    → 0 < page
    → count < 2 ^ 32
    → q.ring.queue_len ≤ count
    → IsRepaired prop q
    → Opens page (finish_open count (grow count (allocate_shared page count q)))
unfolding finish_open grow
finish_open-Opens page count prop q h c le r = ground (
  arith,
  allocate_shared-IsRepaired prop page count q r,
  queue_len-allocate_shared page count q,
  length-allocate_shared page count q,
  capacity_ge page count h,
)

again-Opens :
    (page : ℕ) (prop : MapProp) (q : BlockQueue)
    → 0 < page
    → IsRepaired prop q
    → Opens page (finish_open q.ring.queue_len (allocate_shared page q.ring.queue_len q))
unfolding finish_open
again-Opens page prop q h r = ground (
  arith,
  allocate_shared-IsRepaired prop page q.ring.queue_len q r,
  queue_len-allocate_shared page q.ring.queue_len q,
  length-allocate_shared page q.ring.queue_len q,
  capacity_ge page q.ring.queue_len h,
)

-- Whatever header the file of a queue holds, however long the file is, and whichever allocations
-- fail, a queue that `create_block_queue` opens is sound: the writer's offset lies inside the array,
-- the file and the part of it that is mapped have room for `queue_len` entries, at least 250, and the
-- client's count agrees with the shared length. The level has fewer than 2 ^ 31 blocks, and its last
-- map took fewer bytes than that.
pub create_block_queue-Opens :
    (page : ℕ) (prop : MapProp) (pkt_len : ℕ) (first second third : Bool) (file : BlockQueue)
    → 0 < page
    → prop.total_blocks < 2 ^ 31
    → prop.last_map_download_size < 2 ^ 31
    → IsHeader file
    → Opens page (create_block_queue page prop pkt_len first second third file)
unfolding create_block_queue
create_block_queue-Opens page prop pkt_len false second third file h t m f = tt
create_block_queue-Opens page prop pkt_len true second third file h t m f = choose second third
  where
    q : BlockQueue
    q = repair prop (allocate_shared page min_queue file)

    r : IsRepaired prop q
    r =
        repair-IsRepaired prop (allocate_shared page min_queue file) t
          (allocate_shared-IsHeader page min_queue file f)

    len : ℕ
    len = q.ring.queue_len

    count : ℕ
    count =
        if ltb (wanted_len prop pkt_len) len && ltb len (2 ^ 31)
        then len
        else wanted_len prop pkt_len

    choose :
        (second third : Bool)
        → Opens page (
            if second
            then finish_open count (grow count (allocate_shared page count q))
            else if len == count
            then died
            else if third
            then finish_open len (allocate_shared page len q)
            else died)
    choose true third =
        finish_open-Opens page count prop q h (ground (arith, wanted_len_bounds prop pkt_len m, r))
          (ground (arith, wanted_len_bounds prop pkt_len m, r)) r
    choose false true = elim (Bool-cases (len == count)) [
      | inl same ↦ rw same tt
      | inr other ↦ rw other (again-Opens page prop q h r)
    ]
    choose false false = elim (Bool-cases (len == count)) [
      | inl same ↦ rw same tt
      | inr other ↦ rw other tt
    ]

get_or-allocate_shared :
    (page n : ℕ) (q : BlockQueue) (i : ℕ)
    → get_or (allocate_shared page n q).ring.updates i blank ≡ get_or q.ring.updates i blank
unfolding allocate_shared
get_or-allocate_shared page n q i =
    get_or-padded (capacity page n - length q.ring.updates) i q.ring.updates blank

updates-repair : (prop : MapProp) (q : BlockQueue) → (repair prop q).ring.updates ≡ q.ring.updates
unfolding repair
updates-repair prop q = ground arith

updates-grow : (count : ℕ) (q : BlockQueue) → (grow count q).ring.updates ≡ q.ring.updates
unfolding grow
updates-grow count q = ground arith

-- The entries of an opened queue are those of the file.
abbrev pub KeepsEntries : BlockQueue → Created → Type 0
KeepsEntries file absent = Unit
KeepsEntries file died = Unit
KeepsEntries file (opened q n) =
    (i : ℕ) → get_or q.ring.updates i blank ≡ get_or file.ring.updates i blank

finish_open-KeepsEntries :
    (file q : BlockQueue) (count : ℕ)
    → ((i : ℕ) → get_or q.ring.updates i blank ≡ get_or file.ring.updates i blank)
    → KeepsEntries file (finish_open count q)
unfolding finish_open
finish_open-KeepsEntries file q count h = elim (Bool-cases (q.last_queue_len == 0)) [
  | inl never ↦ rw never h
  | inr before ↦ rw before h
]

-- Opening a queue loses no entry that is in its file, whatever its header says, whichever allocations
-- fail, and whatever length is asked for first, checked and asked for then: each entry of the opened
-- queue is the entry of the file, and blank where the file was too short.
pub create_block_queue-KeepsEntries :
    (page : ℕ) (prop : MapProp) (pkt_len : ℕ) (first second third : Bool) (file : BlockQueue)
    → KeepsEntries file (create_block_queue page prop pkt_len first second third file)
unfolding create_block_queue
create_block_queue-KeepsEntries page prop pkt_len false second third file = tt
create_block_queue-KeepsEntries page prop pkt_len true second third file = choose second third
  where
    q : BlockQueue
    q = repair prop (allocate_shared page min_queue file)

    kept :
        (n i : ℕ)
        → get_or (allocate_shared page n q).ring.updates i blank ≡ get_or file.ring.updates i blank
    kept n i =
        rw
          (
            get_or-allocate_shared page n q i,
            updates-repair prop (allocate_shared page min_queue file),
          )
          (get_or-allocate_shared page min_queue file i)

    len : ℕ
    len = q.ring.queue_len

    count : ℕ
    count =
        if ltb (wanted_len prop pkt_len) len && ltb len (2 ^ 31)
        then len
        else wanted_len prop pkt_len

    grown :
        (i : ℕ)
        → get_or (grow count (allocate_shared page count q)).ring.updates i blank
          ≡ get_or file.ring.updates i blank
    grown i = rw (updates-grow count (allocate_shared page count q)) (kept count i)

    choose :
        (second third : Bool)
        → KeepsEntries file (
            if second
            then finish_open count (grow count (allocate_shared page count q))
            else if len == count
            then died
            else if third
            then finish_open len (allocate_shared page len q)
            else died)
    choose true third =
        finish_open-KeepsEntries file (grow count (allocate_shared page count q)) count grown
    choose false true = elim (Bool-cases (len == count)) [
      | inl same ↦ rw same tt
      | inr other ↦
          rw other (finish_open-KeepsEntries file (allocate_shared page len q) len (kept len))
    ]
    choose false false = elim (Bool-cases (len == count)) [
      | inl same ↦ rw same tt
      | inr other ↦ rw other tt
    ]
