-- ===== src/Packet/Config.antt =====
-- What the encoder reads of the connection, and the packet lengths that go with it: `msglen` of
-- packet.c as `process_extentry` of cpe_login.c leaves it.
use mcchost.Base.{ℕ, ◌+◌, Bool, ◌==◌, leb, if◌then◌else◌}
use mcchost.Base.Int.{ℤ}

-- The globals of cpe_login.c and login.c, with their names.
pub record Config : Type 0 where
  pub cpe_requested : Bool
  pub op_enabled : Bool
  pub protocol_base_version : ℕ
  pub max_proto_player_id : ℕ
  pub my_user_no : ℤ
  pub offset_x : ℤ
  pub offset_y : ℤ
  pub offset_z : ℤ
  pub extn_alltext : Bool
  pub extn_changemodel : Bool
  pub extn_emotefix : Bool
  pub extn_envmapappearance2 : Bool
  pub extn_extendblockno : Bool
  pub extn_extendtexno : Bool
  pub extn_extentityposn : Bool
  pub extn_extplayerlist : Bool
  pub extn_fastmap : Bool
  pub extn_fullcp437 : Bool
  pub extn_messagetypes : Bool
  pub extn_textcolours : Bool

-- The table `msglen` of packet.c.
unfoldable pub msglen : ℕ → ℕ
msglen id =
    if id == 0x00
    then 131
    else if id == 0x01
    then 1
    else if id == 0x02
    then 1
    else if id == 0x03
    then 1024 + 4
    else if id == 0x04
    then 7
    else if id == 0x05
    then 9
    else if id == 0x06
    then 8
    else if id == 0x07
    then 2 + 64 + 6 + 2
    else if id == 0x08
    then 2 + 6 + 2
    else if id == 0x09
    then 7
    else if id == 0x0a
    then 5
    else if id == 0x0b
    then 4
    else if id == 0x0c
    then 2
    else if id == 0x0d
    then 2 + 64
    else if id == 0x0e
    then 1 + 64
    else if id == 0x0f
    then 2
    else if id == 0x10
    then 67
    else if id == 0x11
    then 69
    else if id == 0x12
    then 3
    else if id == 0x13
    then 2
    else if id == 0x14
    then 3
    else if id == 0x15
    then 134
    else if id == 0x16
    then 196
    else if id == 0x17
    then 130
    else if id == 0x18
    then 3
    else if id == 0x19
    then 8
    else if id == 0x1a
    then 86
    else if id == 0x1b
    then 2
    else if id == 0x1c
    then 4
    else if id == 0x1d
    then 66
    else msglen_high id
  where
    msglen_high : ℕ → ℕ
    msglen_high id =
        if id == 0x1f
        then 2
        else if id == 0x20
        then 8
        else if id == 0x21
        then 138
        else if id == 0x22
        then 15
        else if id == 0x23
        then 80
        else if id == 0x24
        then 2
        else if id == 0x25
        then 88
        else if id == 0x26
        then 1282
        else if id == 0x27
        then 6
        else if id == 0x28
        then 65
        else if id == 0x29
        then 6
        else if id == 0x2a
        then 7
        else if id == 0x2b
        then 4
        else if id == 0x2c
        then 3
        else if id == 0x2d
        then 3
        else if id == 0x2e
        then 9
        else if id == 0x2f
        then 16
        else if id == 0x30
        then 36
        else if id == 0x31
        then 26
        else if id == 0x32
        then 116
        else if id == 0x33
        then 167
        else if id == 0x34
        then 2
        else if id == 0x35
        then 66
        else if id == 0x36
        then 11
        else if id == 0x37
        then 3
        else 0

abbrev pub write : (ℕ → ℕ) → ℕ → ℕ → ℕ → ℕ
write f k v id = if id == k then v else f id

-- `if (on) { msglen[k] = v; … }`.
abbrev pub when : Bool → ((ℕ → ℕ) → ℕ → ℕ) → (ℕ → ℕ) → ℕ → ℕ
when on f g id = if on then f g id else g id

-- The assignments at the end of `process_extentry`, in their order.
unfoldable pub extended_msglen : Config → (ℕ → ℕ) → ℕ → ℕ
extended_msglen cfg f0 =
    let f1 = when cfg.extn_fastmap (λ f. write f 0x02 5) f0 in
    let f2 =
      when cfg.extn_extentityposn
        (λ f.
          write
            (write (write (write f 0x07 (2 + 64 + 6 + 2 + 6)) 0x08 (2 + 6 + 2 + 6)) 0x21 (138 + 6))
            0x2e (1 + 6 + 2 + 6))
        f1 in
    let blocks = λ (f : ℕ → ℕ).
      let g1 =
        write (write (write (write f 0x05 (9 + 1)) 0x06 (8 + 1)) 0x08 (2 + 6 + 2 + 1)) 0x14 4 in
      let g2 = write (write (write (write (write g1 0x23 81) 0x24 3) 0x25 89) 0x2c 5) 0x2d 4 in
      let g3 = when cfg.extn_extendtexno (λ g. write (write g 0x23 (81 + 3)) 0x25 (89 + 6)) g2 in
      when cfg.extn_extentityposn (λ g. write g 0x08 (2 + 6 + 2 + 1 + 6)) g3 in
    let textures = λ (f : ℕ → ℕ).
      when cfg.extn_extendtexno (λ g. write (write g 0x23 (80 + 3)) 0x25 (88 + 6)) f in
    if cfg.extn_extendblockno then blocks f2 else textures f2

-- What login.c stores in `msglen[0]` for a client of the older protocols.
unfoldable pub login_msglen : Config → ℕ → ℕ
login_msglen cfg = write msglen 0x00 (if leb 6 cfg.protocol_base_version then 131 else 130)

-- What a packet has to have on its way to the client. It is the entry of `msglen`, but for three packets
-- of which the table does not hold it: the position packet (0x08), whose entry is the client's with the
-- held block; the block permission (0x1c), whose entry leaves out the second byte of ExtendedBlocks; and
-- the map appearance (0x1e), whose entry is 0.
unfoldable pub sent_len : Config → ℕ → ℕ
sent_len cfg id =
    let block = if cfg.extn_extendblockno then 2 else 1 in
    if id == 0x08
    then if cfg.extn_extentityposn then 16 else 10
    else if id == 0x1c
    then 3 + block
    else if id == 0x1e
    then 67 + block + block + (if cfg.extn_envmapappearance2 then 4 else 0)
    else extended_msglen cfg (login_msglen cfg) id
