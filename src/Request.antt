-- ===== src/Request.antt =====
-- `process_client_message` of requestloop.c: what the packets of a client ask for.
pub mod Read
pub mod Handle
pub mod Frames
pub mod Lengths
