-- ===== src/Packet.antt =====
-- packet.c, send_packet.c and the packet lengths of cpe_login.c: the wire protocol.
pub mod Config
pub mod Encode
pub mod Text
pub mod Ascii
pub mod Send
pub mod Define
pub mod Players
pub mod Message
pub mod SentLen
pub mod BasicLengths
pub mod CpeLengths
pub mod Lengths
