-- ===== src/Tests.antt =====
-- Runs of the models at concrete inputs, and instances of the theorems.
mod Web
mod Workers
mod Packets
mod Talk
mod Udp
mod Stores
mod Servers
mod Wire
