-- ===== src/Pool.antt =====
-- Thread_pool/thread_pool.c: a pool of worker threads over a linked list of tasks.
pub mod Condition
pub mod Tasks
pub mod Worker
pub mod System
pub mod Counts
pub mod Invariant
pub mod Reachable
pub mod Calm
pub mod Refine
