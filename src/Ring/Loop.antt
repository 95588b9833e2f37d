-- ===== src/Ring/Loop.antt =====
-- What queue_chat.c and queue_cmd.c do with their rings: the check of the header, and the reading loop,
-- which takes one entry after the other and starts anew after an overflow.
use mcchost.Base.{
  ℕ, zero, suc, ◌+◌, ◌^◌, ◌≤◌, ◌<◌, ◌≡◌, ◌∙◌, refl, ◌||◌, not, true, List, [], ◌∷◌, ◌++◌,
  append-nil, append_assoc, arith, ltb, leb, ◌==◌, if◌then◌else◌, length, length-append,
}
use mcchost.Ring.Step.{
  Ring, put, Cursor, wiped, reading, set_last, idle, overflow, drained, got, fetch,
}
use mcchost.Ring.Follow.{
  IsValid, put-IsValid, queue_len-put, Live, put-Live, fetch-Live_nil, fetch-Live_cons,
}

-- A header that cannot be right is set to an empty queue of `len` entries.
unfoldable pub check_header : {A : Type 0} → ℕ → Ring A → Ring A
check_header len q =
    if q.generation == 0
      || ltb 0x0FFFFFFF q.generation
      || not (q.queue_len == len)
      || leb len q.curr_offset
    then record q { generation = 2; curr_offset = 0; queue_len = len }
    else q

-- Whatever header the file holds, the queue is sound once `check_header` has seen it: the next write
-- is inside the array. The file has room for `len` entries, at least one and fewer than 2 ^ 32.
pub check_header-IsValid :
    {A : Type 0} (len : ℕ) (q : Ring A)
    → 0 < len
    → len < 2 ^ 32
    → len ≤ length q.updates
    → IsValid (check_header len q)
unfolding check_header
check_header-IsValid len q h m r = ground arith

-- At most `n` rounds of the loop; `handle` is what it does with an entry.
unfoldable pub read_loop :
    {A : Type 0} {S : Type 0} → A → (S → A → S) → ℕ → Ring A → Cursor → S → S × Cursor
read_loop blank handle zero q c s = (s, c)
read_loop blank handle (suc n) q c s = elim (fetch blank true q c) [
  | idle ↦ (s, c)
  | drained ↦ (s, c)
  | overflow ↦ (s, set_last q)
  | got e c' ↦ read_loop blank handle n q c' (handle s e)
]

abbrev pub handle_all : {A : Type 0} {S : Type 0} → (S → A → S) → S → List A → S
handle_all handle s [] = s
handle_all handle s (e ∷ es) = handle_all handle (handle s e) es

pub handle_all-append :
    {A : Type 0} {S : Type 0} (handle : S → A → S) (s : S) (xs ys : List A)
    → handle_all handle s (xs ++ ys) ≡ handle_all handle (handle_all handle s xs) ys
handle_all-append handle s [] ys = refl
handle_all-append handle s (x ∷ xs) ys = handle_all-append handle (handle s x) xs ys

abbrev pub put_all : {A : Type 0} → Ring A → List A → Ring A
put_all q [] = q
put_all q (e ∷ es) = put_all (put q e) es

pub queue_len-put_all :
    {A : Type 0} (es : List A) (q : Ring A) → (put_all q es).queue_len ≡ q.queue_len
queue_len-put_all [] q = refl
queue_len-put_all (e ∷ es) q = queue_len-put_all es (put q e) ∙ queue_len-put q e

pub put_all-IsValid : {A : Type 0} (es : List A) (q : Ring A) → IsValid q → IsValid (put_all q es)
put_all-IsValid [] q v = v
put_all-IsValid (e ∷ es) q v = put_all-IsValid es (put q e) (put-IsValid q e v)

pub put_all-append :
    {A : Type 0} (xs ys : List A) (q : Ring A) → put_all q (xs ++ ys) ≡ put_all (put_all q xs) ys
put_all-append [] ys q = refl
put_all-append (x ∷ xs) ys q = put_all-append xs ys (put q x)

module _ {A : Type 0} (blank : A) where
  -- A cursor past all that was written.
  abbrev pub IsDone : Ring A → Cursor → Type 0
  IsDone q wiped = ⊥
  IsDone q (reading id gen) = Live blank q id gen []

  module _ {S : Type 0} (handle : S → A → S) where
    read_loop_drained :
        (n : ℕ) (q : Ring A) (c : Cursor) (s : S)
        → fetch blank true q c ≡ drained
        → read_loop blank handle (suc n) q c s ≡ (s, c)
    unfolding read_loop
    read_loop_drained n q c s h = rw (h, read_loop)

    read_loop_got :
        (n : ℕ) (q : Ring A) (c c' : Cursor) (e : A) (s : S)
        → fetch blank true q c ≡ got e c'
        → read_loop blank handle (suc n) q c s ≡ read_loop blank handle n q c' (handle s e)
    unfolding read_loop
    read_loop_got n q c c' e s h = rw (h, read_loop)

    -- The loop hands over all that is unread, in order, and stops there.
    pub read_loop-Live :
        (n : ℕ) (q : Ring A) (id gen : ℕ) (p : List A) (s : S)
        → IsValid q
        → Live blank q id gen p
        → length p < n
        → (c : Cursor) × (read_loop blank handle n q (reading id gen) s
            ≡ (handle_all handle s p, c))
          × IsDone q c
    read_loop-Live zero q id gen p s v l h = absurd (omega arith)
    read_loop-Live (suc n) q id gen [] s v l h = (
      reading id gen,
      read_loop_drained n q (reading id gen) s (fetch-Live_nil blank q id gen v l),
      l,
    )
    read_loop-Live (suc n) q id gen (e ∷ p) s v l h =
        let (id', gen', got_e, l') = fetch-Live_cons blank q id gen e p v l in
        let (c, same, at) = read_loop-Live n q id' gen' p (handle s e) v l' (omega arith) in
        (c, read_loop_got n q (reading id gen) (reading id' gen') e s got_e ∙ same, at)

  pub put_all-Live :
      (es : List A) (q : Ring A) (id gen : ℕ) (p : List A)
      → IsValid q
      → Live blank q id gen p
      → length p + length es < q.queue_len
      → IsValid (put_all q es) × Live blank (put_all q es) id gen (p ++ es)
  put_all-Live [] q id gen p v l h = (v, rw append-nil l)
  put_all-Live (e ∷ es) q id gen p v l h =
      let l' = put-Live blank q e id gen p v l (omega arith) in
      let (v'', l'') =
        put_all-Live es (put q e) id gen (p ++ e ∷ []) (put-IsValid q e v) l'
          (omega (arith, queue_len-put q e, length-append {0} p (e ∷ []))) in
      (v'', rw (append_assoc p (e ∷ []) es) at l'')

  pub set_last-Live : (q : Ring A) → IsValid q → Live blank q q.curr_offset q.generation []
  set_last-Live q v = ground arith
