-- ===== src/Outgoing/Room.antt =====
-- Every byte is stored inside the buffer.
use mcchost.Base.{
  ℕ, zero, suc, ◌+◌, ◌*◌, ◌<◌, ◌≤◌, ◌≡◌, ◌∙◌, refl, sym, ap, subst, Bool, true, false, not, ◌&&◌,
  none, some, leb, ltb, ◌==◌, if◌then◌else◌, length, length-append, arith, Bool-cases, inl, inr,
}
use mcchost.Websocket.{Bytes, websocket_header}
use mcchost.Outgoing.{Buffer, grow, framed, needed, append_message, write_to_remote}

grow_enough : (n need size : ℕ) → need < n + size → need < grow n need size
unfolding grow
grow_enough zero need size h = omega (arith, h)
grow_enough (suc n) need size h =
    let doubled : ℕ = if size == 0 then 2048 else size * 2 in
    let larger : size < doubled = ground arith in
    let rest = grow_enough n need doubled (omega (arith, h, larger)) in ground (arith, rest)

length-websocket_header : (n : ℕ) → length (websocket_header n) ≤ 10
unfolding websocket_header
length-websocket_header n = elim (Bool-cases (ltb n 126)) [
  | inl short ↦ rw short (omega arith)
  | inr more ↦ elim (Bool-cases (ltb n 65536)) [
    | inl long ↦ rw (more, long) (omega arith)
    | inr large ↦ rw (more, large) (omega arith)
  ]
]

length-framed : (websocket : Bool) (str : Bytes) → length (framed websocket str) ≤ length str + 10
length-framed true str =
    omega (
      arith,
      length-append (websocket_header (length str)) str,
      length-websocket_header (length str),
    )
length-framed false str = omega arith

append_message_room :
    (websocket : Bool) (str : Bytes) (b : Buffer)
    → length (append_message websocket str b).ttl_buf < (append_message websocket str b).ttl_size
unfolding append_message
append_message_room websocket str b = omega (
  arith,
  length-append b.ttl_buf (framed websocket str),
  length-framed websocket str,
  grow_enough (needed str b + 1) (needed str b) b.ttl_size (omega arith),
)

-- A message that is accepted is the one that `append_message` adds.
pub write_to_remote-append_message :
    (websocket reallocs : Bool) (str : Bytes) (b c : Buffer)
    → write_to_remote websocket reallocs str b ≡ some c
    → append_message websocket str b ≡ c
unfolding write_to_remote
write_to_remote-append_message websocket reallocs str b c h =
    elim (Bool-cases (leb b.ttl_size (needed str b) && not reallocs)) [
      | inl stops ↦ absurd (ground (arith, h, stops))
      | inr goes ↦
          let kept : write_to_remote websocket reallocs str b
              ≡ some (append_message websocket str b) =
            rw goes refl in
          ap (λ o. elim o [ none ↦ c | some d ↦ d ]) (sym kept ∙ h)
    ]

-- After every message the bytes in the buffer, with the header of the frame, are fewer than its
-- memory has.
pub write_to_remote_room :
    (websocket reallocs : Bool) (str : Bytes) (b c : Buffer)
    → write_to_remote websocket reallocs str b ≡ some c
    → length c.ttl_buf < c.ttl_size
write_to_remote_room websocket reallocs str b c h =
    subst (λ d. length d.ttl_buf < d.ttl_size)
      (write_to_remote-append_message websocket reallocs str b c h)
      (append_message_room websocket str b)
