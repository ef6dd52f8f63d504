-- ===== src/Chat.antt =====
-- chat/server.c: a chat server for five users over `poll`.
pub mod Mask
pub mod Buffer
pub mod Server
pub mod Ensures
pub mod Rounds
pub mod Limits
pub mod Poll
pub mod Ends
