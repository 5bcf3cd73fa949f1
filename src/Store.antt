-- ===== src/Store.antt =====
-- The store: include/impl/StoreImpl.h and src/impl/StoreImpl.cpp, one module for each group of its
-- operations, and their proofs.
pub mod State
pub mod Write
pub mod Read
pub mod Update
pub mod Maintain
pub mod Kinds
pub mod Open
pub mod Frame
pub mod Syncing
pub mod Outcome
pub mod Writes
pub mod Reads
pub mod RoundTrip
pub mod Updates
pub mod Absent
pub mod Ends
pub mod Opening
pub mod Opened
pub mod Ranges
pub mod Families
pub mod Closing
pub mod Compacting
pub mod Reachable
mod Tests
