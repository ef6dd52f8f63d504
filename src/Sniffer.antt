-- ===== src/Sniffer.antt =====
-- NetWorkSniffer: packets read from a raw socket, counted by protocol and written to a log file.
pub mod Dump
pub mod Fields
pub mod Show
pub mod Process
pub mod Session
