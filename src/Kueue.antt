-- ===== src/Kueue.antt =====
-- The persistent queue: include/impl/KueueImpl.h, a state and its operations, and their proofs.
pub mod State
pub mod Operations
pub mod Recover
pub mod Contents
pub mod IsQueue
pub mod Fifo
pub mod Take
pub mod Peek
pub mod Drain
pub mod Clear
pub mod Run
pub mod EmptyErase
pub mod Threads
pub mod Recovered
pub mod Constructed
pub mod Reopen
pub mod Fresh
pub mod Created
mod Tests
