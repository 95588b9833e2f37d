-- ===== src/Request/Lengths.antt =====
-- The client's packets are as long in the tables as what `process_client_message` reads of them.
use mcchost.Base.{
  ℕ, ◌+◌, ◌≤◌, ◌≡◌, refl, sym, subst, true, ◌++◌, arith, ◌==◌, ==_iff, if◌then◌else◌, length,
  Bool-cases, false, inl, inr,
}
use mcchost.Receive.Frame.{Bytes}
use mcchost.Packet.Config.{Config, msglen, extended_msglen, login_msglen}
use mcchost.Request.Handle.{Link, posn_start, process_client_message}
use mcchost.Request.Frames.{read_len, dispatch-append}

-- The tables as login.c and `process_extentry` leave them.
abbrev client_len : Config → ℕ → ℕ
client_len cfg = extended_msglen cfg (login_msglen cfg)

client_len_05 : (cfg : Config) → client_len cfg 0x05 ≡ (if cfg.extn_extendblockno then 10 else 9)
unfolding extended_msglen login_msglen msglen
client_len_05 cfg = ground arith

client_len_08 :
    (cfg : Config)
    → client_len cfg 0x08
      ≡ (10 + (if cfg.extn_extentityposn then 6 else 0) + (if cfg.extn_extendblockno then 1 else 0))
unfolding extended_msglen login_msglen msglen
client_len_08 cfg = ground arith

client_len_0d : (cfg : Config) → client_len cfg 0x0d ≡ (66)
unfolding extended_msglen login_msglen msglen
client_len_0d cfg = ground arith

client_len_10 : (cfg : Config) → client_len cfg 0x10 ≡ (67)
unfolding extended_msglen login_msglen msglen
client_len_10 cfg = ground arith

client_len_11 : (cfg : Config) → client_len cfg 0x11 ≡ (69)
unfolding extended_msglen login_msglen msglen
client_len_11 cfg = ground arith

client_len_13 : (cfg : Config) → client_len cfg 0x13 ≡ (2)
unfolding extended_msglen login_msglen msglen
client_len_13 cfg = ground arith

client_len_22 : (cfg : Config) → client_len cfg 0x22 ≡ (15)
unfolding extended_msglen login_msglen msglen
client_len_22 cfg = ground arith

client_len_2b : (cfg : Config) → client_len cfg 0x2b ≡ (4)
unfolding extended_msglen login_msglen msglen
client_len_2b cfg = ground arith

client_len_35 : (cfg : Config) → client_len cfg 0x35 ≡ (66)
unfolding extended_msglen login_msglen msglen
client_len_35 cfg = ground arith

-- The packet lengths of a connection go with its extensions.
abbrev pub Agrees : Config → Link → Type 0
Agrees cfg l =
    (cfg.extn_extendblockno ≡ l.extn_extendblockno)
    × (cfg.extn_extentityposn ≡ l.extn_extentityposn)

read_len_05 : (cfg : Config) (l : Link) → Agrees cfg l → read_len l 0x05 ≤ client_len cfg 0x05
unfolding read_len posn_start
read_len_05 cfg l a = ground (arith, client_len_05 cfg)

read_len_08 : (cfg : Config) (l : Link) → Agrees cfg l → read_len l 0x08 ≤ client_len cfg 0x08
unfolding read_len posn_start
read_len_08 cfg l a = ground (arith, client_len_08 cfg)

read_len_0d : (cfg : Config) (l : Link) → Agrees cfg l → read_len l 0x0d ≤ client_len cfg 0x0d
unfolding read_len posn_start
read_len_0d cfg l a = ground (arith, client_len_0d cfg)

read_len_10 : (cfg : Config) (l : Link) → Agrees cfg l → read_len l 0x10 ≤ client_len cfg 0x10
unfolding read_len posn_start
read_len_10 cfg l a = ground (arith, client_len_10 cfg)

read_len_11 : (cfg : Config) (l : Link) → Agrees cfg l → read_len l 0x11 ≤ client_len cfg 0x11
unfolding read_len posn_start
read_len_11 cfg l a = ground (arith, client_len_11 cfg)

read_len_13 : (cfg : Config) (l : Link) → Agrees cfg l → read_len l 0x13 ≤ client_len cfg 0x13
unfolding read_len posn_start
read_len_13 cfg l a = ground (arith, client_len_13 cfg)

read_len_22 : (cfg : Config) (l : Link) → Agrees cfg l → read_len l 0x22 ≤ client_len cfg 0x22
unfolding read_len posn_start
read_len_22 cfg l a = ground (arith, client_len_22 cfg)

read_len_2b : (cfg : Config) (l : Link) → Agrees cfg l → read_len l 0x2b ≤ client_len cfg 0x2b
unfolding read_len posn_start
read_len_2b cfg l a = ground (arith, client_len_2b cfg)

read_len_35 : (cfg : Config) (l : Link) → Agrees cfg l → read_len l 0x35 ≤ client_len cfg 0x35
unfolding read_len posn_start
read_len_35 cfg l a = ground (arith, client_len_35 cfg)

is_id : (a b : ℕ) → (a == b) ≡ true → b ≡ a
is_id a b h = sym ((==_iff a b).0 h)

-- No other packet is read at all.
none_read :
    (l : Link) (cmd n : ℕ)
    → ((cmd == 0x05) ≡ false)
      × ((cmd == 0x08) ≡ false)
      × ((cmd == 0x0d) ≡ false)
      × ((cmd == 0x10) ≡ false)
      × ((cmd == 0x11) ≡ false)
      × ((cmd == 0x13) ≡ false)
      × ((cmd == 0x22) ≡ false)
      × ((cmd == 0x2b) ≡ false)
      × ((cmd == 0x35) ≡ false)
    → read_len l cmd ≤ n
unfolding read_len
none_read l cmd n h = ground (arith, h)

-- A bound on the numbers of packets, at one of them and at all others.
at_id :
    (cfg : Config) (l : Link) (cmd at : ℕ)
    → read_len l at ≤ client_len cfg at
    → ((cmd == at) ≡ false → read_len l cmd ≤ client_len cfg cmd)
    → read_len l cmd ≤ client_len cfg cmd
at_id cfg l cmd at here elsewhere = elim (Bool-cases (cmd == at)) [
  | inl same ↦ subst (λ c. read_len l c ≤ client_len cfg c) (is_id cmd at same) here
  | inr other ↦ elsewhere other
]

read_len-client_len :
    (cfg : Config) (l : Link) (cmd : ℕ) → Agrees cfg l → read_len l cmd ≤ client_len cfg cmd
read_len-client_len cfg l cmd a = at_id cfg l cmd 0x05 (read_len_05 cfg l a) (λ n05.
    at_id cfg l cmd 0x08 (read_len_08 cfg l a) (λ n08.
      at_id cfg l cmd 0x0d (read_len_0d cfg l a) (λ n0d.
        at_id cfg l cmd 0x10 (read_len_10 cfg l a) (λ n10.
          at_id cfg l cmd 0x11 (read_len_11 cfg l a) (λ n11.
            at_id cfg l cmd 0x13 (read_len_13 cfg l a) (λ n13.
              at_id cfg l cmd 0x22 (read_len_22 cfg l a) (λ n22.
                at_id cfg l cmd 0x2b (read_len_2b cfg l a) (λ n2b.
                  at_id cfg l cmd 0x35 (read_len_35 cfg l a) (λ n35.
                    none_read l cmd (client_len cfg cmd)
                      (n05, n08, n0d, n10, n11, n13, n22, n2b, n35))))))))))

-- Whatever the server's buffer holds behind a packet, `process_client_message` answers as for the
-- packet alone, where the packet has the length that the tables give for it and for the extensions of
-- the connection: no case reads past the end.
pub process_client_message-append :
    (cfg : Config) (l : Link) (cmd : ℕ) (pkt more : Bytes)
    → (cfg.extn_extendblockno ≡ l.extn_extendblockno)
    → (cfg.extn_extentityposn ≡ l.extn_extentityposn)
    → length pkt ≡ extended_msglen cfg (login_msglen cfg) cmd
    → process_client_message l cmd (pkt ++ more) ≡ process_client_message l cmd pkt
unfolding process_client_message
process_client_message-append cfg l cmd pkt more b p h =
    let room : read_len l cmd ≤ length pkt = omega (arith, read_len-client_len cfg l cmd (b, p)) in
    rw (dispatch-append l cmd pkt more room) refl
