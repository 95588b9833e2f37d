-- ===== src/Outgoing/Queue.antt =====
-- What is written is what the messages were.
use mcchost.Base.{
  ℕ, zero, suc, ◌+◌, ◌-◌, ◌≤◌, ◌≡◌, ◌∙◌, refl, sym, ap, Bool, true, false, Option, none, some, List,
  [], ◌∷◌, ◌++◌, append_assoc, append-nil, ◌==◌, ==_iff, not, ◌&&◌, leb, length, length-append,
  take, drop, arith, Bool-cases, inl, inr,
}
use mcchost.Websocket.{Bytes}
use mcchost.Outgoing.{
  Buffer, framed, needed, append_message, write_to_remote, pending, flush_to_remote, Event, message,
  flush, run, messages,
}

take-drop : (n : ℕ) (xs : Bytes) → take n xs ++ drop n xs ≡ xs
take-drop zero xs = refl
take-drop (suc n) [] = refl
take-drop (suc n) (x ∷ xs) = ap (◌∷◌ x) (take-drop n xs)

take_whole : (xs : Bytes) → take (length xs) xs ≡ xs
take_whole [] = refl
take_whole (x ∷ xs) = ap (◌∷◌ x) (take_whole xs)

drop-append : (n : ℕ) (xs ys : Bytes) → n ≤ length xs → drop n (xs ++ ys) ≡ drop n xs ++ ys
drop-append zero xs ys h = refl
drop-append (suc n) [] ys h = absurd (omega (arith, h))
drop-append (suc n) (x ∷ xs) ys h = drop-append n xs ys (omega (arith, h))

drop-nil : (n : ℕ) → drop {A = ℕ} n [] ≡ []
drop-nil zero = refl
drop-nil (suc n) = refl

drop-drop : (n k : ℕ) (xs : Bytes) → drop (n + k) xs ≡ drop k (drop n xs)
drop-drop zero k xs = let same : 0 + k ≡ k = omega arith in ap (λ i. drop i xs) same
drop-drop (suc n) k [] = drop-nil (suc n + k) ∙ sym (drop-nil k)
drop-drop (suc n) k (x ∷ xs) =
    let same : suc n + k ≡ suc (n + k) = omega arith in
    ap (λ i. drop i (x ∷ xs)) same ∙ drop-drop n k xs

length-drop : (n : ℕ) (xs : Bytes) → length (drop n xs) ≡ length xs - n
length-drop zero xs = omega arith
length-drop (suc n) [] = omega arith
length-drop (suc n) (x ∷ xs) = omega (arith, length-drop n xs)

-- The start lies inside the bytes.
pub record IsBuffer (b : Buffer) : Type 0 where
  pub inside : b.ttl_start ≤ length b.ttl_buf

-- `write` takes no more than it is given.
abbrev pub Takes : ℕ → Buffer → Type 0
Takes rv b = rv ≤ length (pending b)

record Written (rv : ℕ) (b c : Buffer) : Type 0 where
  sound : IsBuffer c
  rest : take rv (pending b) ++ pending c ≡ pending b

all_taken :
    (rv : ℕ) (b : Buffer)
    → rv ≡ length (pending b)
    → Written rv b (record b { ttl_buf = []; ttl_start = 0 })
all_taken rv b all = record {
  sound = record { inside = omega arith };
  rest =
      append-nil (take rv (pending b)) ∙ ap (λ n. take n (pending b)) all ∙ take_whole (pending b);
}

some_taken :
    (rv : ℕ) (b : Buffer)
    → IsBuffer b
    → Takes rv b
    → Written rv b (record b { ttl_start = b.ttl_start + rv })
some_taken rv b h t = record {
  sound = record { inside = omega (arith, length-drop b.ttl_start b.ttl_buf, t, h.inside) };
  rest =
      ap (λ xs. take rv (pending b) ++ xs) (drop-drop b.ttl_start rv b.ttl_buf)
      ∙ take-drop rv (pending b);
}

flush_to_remote-Written :
    (rv : ℕ) (b : Buffer) → IsBuffer b → Takes rv b → Written rv b (flush_to_remote rv b)
unfolding flush_to_remote
flush_to_remote-Written rv b h t = elim (Bool-cases (rv == 0)) [
  | inl empty ↦
      let zero_bytes = (==_iff rv 0).0 empty in
      rw empty (record { sound = h; rest = ap (λ n. take n (pending b) ++ pending b) zero_bytes })
  | inr filled ↦ elim (Bool-cases (rv == length (pending b))) [
    | inl all ↦ rw (filled, all) (all_taken rv b ((==_iff rv (length (pending b))).0 all))
    | inr fewer ↦ rw (filled, fewer) (some_taken rv b h t)
  ]
]

-- Every write takes no more than is there.
unfoldable pub Fits : Bool → List Event → Buffer → Type 0
Fits websocket [] b = Unit
Fits websocket (message str ∷ es) b = Fits websocket es (append_message websocket str b)
Fits websocket (flush rv ∷ es) b = Takes rv b × Fits websocket es (flush_to_remote rv b)

append_message-pending :
    (websocket : Bool) (str : Bytes) (b : Buffer)
    → IsBuffer b
    → pending (append_message websocket str b) ≡ pending b ++ framed websocket str
unfolding append_message
append_message-pending websocket str b h =
    drop-append b.ttl_start b.ttl_buf (framed websocket str) h.inside

append_message-IsBuffer :
    (websocket : Bool) (str : Bytes) (b : Buffer)
    → IsBuffer b
    → IsBuffer (append_message websocket str b)
unfolding append_message
append_message-IsBuffer websocket str b h = record {
  inside = omega (arith, length-append b.ttl_buf (framed websocket str), h.inside);
}

accepts :
    (websocket : Bool) (str : Bytes) (b : Buffer)
    → write_to_remote websocket true str b ≡ some (append_message websocket str b)
unfolding write_to_remote
accepts websocket str b =
    let goes : (leb b.ttl_size (needed str b) && not true) ≡ false = ground arith in rw goes refl

run-message :
    (websocket : Bool) (str : Bytes) (es : List Event) (out : Bytes) (b : Buffer)
    → run websocket true (message str ∷ es) out b
      ≡ run websocket true es out (append_message websocket str b)
unfolding run
run-message websocket str es out b =
    ap (λ o. elim o [ none ↦ none | some c ↦ run websocket true es out c ])
      (accepts websocket str b)

-- What has been written, and what is still to be.
abbrev pub all_bytes : Option (Bytes × Buffer) → Option Bytes
all_bytes none = none
all_bytes (some (out, b)) = some (out ++ pending b)

-- Whatever messages are queued and however `write` takes the bytes in between: what has been written
-- and what is left in the buffer are together the messages, each with its header where the client
-- is on a websocket, in their order and none twice, where memory is to be had.
pub run-messages :
    (websocket : Bool) (es : List Event) (out : Bytes) (b : Buffer)
    → IsBuffer b
    → Fits websocket es b
    → all_bytes (run websocket true es out b) ≡ some (out ++ (pending b ++ messages websocket es))
unfolding run Fits
run-messages websocket [] out b h fits = ap (λ m. some (out ++ m)) (sym (append-nil (pending b)))
run-messages websocket (message str ∷ es) out b h fits =
    ap all_bytes (run-message websocket str es out b)
    ∙ run-messages websocket es out (append_message websocket str b)
        (append_message-IsBuffer websocket str b h) fits
    ∙ ap (λ p. some (out ++ (p ++ messages websocket es)))
        (append_message-pending websocket str b h)
    ∙ ap (λ m. some (out ++ m))
        (append_assoc (pending b) (framed websocket str) (messages websocket es))
run-messages websocket (flush rv ∷ es) out b h fits =
    let step = flush_to_remote-Written rv b h fits.0 in
    let taken = take rv (pending b) in
    let left = pending (flush_to_remote rv b) in
    let rest = messages websocket es in
    run-messages websocket es (out ++ taken) (flush_to_remote rv b) step.sound fits.1
    ∙ ap some (append_assoc out taken (left ++ rest))
    ∙ ap (λ m. some (out ++ m)) (sym (append_assoc taken left rest))
    ∙ ap (λ p. some (out ++ (p ++ rest))) step.rest
