-- ===== src/LinuxChat.antt =====
-- LinuxChat/: a chat over UDP, with a ring of messages, a store in redis and windows on a terminal.
pub mod Ring
pub mod Outcome
pub mod Redis
pub mod Server
pub mod Saved
pub mod Users
pub mod Broadcast
pub mod Client
pub mod View
pub mod Window
pub mod Typing
pub mod Threads
pub mod Deliver
pub mod Echo
pub mod System
