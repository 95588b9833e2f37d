-- ===== src/Negotiate.antt =====
-- cpe_login.c: the extensions of a client, and the limits for block numbers that follow.
pub mod Entries
pub mod Definitions
pub mod Grown
pub mod Agreed
pub mod Sent
pub mod Enabled
