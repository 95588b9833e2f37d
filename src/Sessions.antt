-- ===== src/Sessions.antt =====
-- client_list.c: the slots of the sessions in the shared table.
pub mod Slots
pub mod Scanned
pub mod Rounds
pub mod Started
pub mod Admitted
