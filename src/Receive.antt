-- ===== src/Receive.antt =====
-- The receiving half of requestloop.c: packets out of a byte stream, and texts out of their fields.
pub mod Frame
pub mod Segments
pub mod Stream
pub mod Text
pub mod Clean
