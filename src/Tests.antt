-- ===== src/Tests.antt =====
-- The theorems of the other modules at concrete inputs, and runs of the code on them.
mod Queues
mod Blocks
mod Chats
mod Packets
mod Streams
mod Texts
mod Edits
mod Limits
mod Sockets
mod Inbounds
mod Outputs
mod Requests
mod Colours
mod Sights
mod Logins
mod Extensions
mod WordLists
