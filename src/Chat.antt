-- ===== src/Chat.antt =====
-- chat_message.c: the colours of a chat line, and its way to the client in lines of 64 characters.
pub mod Colour
pub mod ColourLaws
pub mod Paste
pub mod PasteLaws
pub mod Wrap
pub mod Stages
pub mod Bytewise
pub mod WrapLaws
