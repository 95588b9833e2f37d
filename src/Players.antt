-- ===== src/Players.antt =====
-- client_list.c: the other players, in the shared table and at this client.
pub mod Slot
pub mod View
pub mod Heard
pub mod Mirror
pub mod Quiet
pub mod Pass
pub mod PassLaws
pub mod Despawn
pub mod Places
pub mod Coordinates
pub mod Placed
pub mod Delivered
