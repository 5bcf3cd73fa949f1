-- ===== src/Kueue/Threads.antt =====
-- The threads of one KueueImpl of include/impl/KueueImpl.h, interleaved: its two locks, the atomic
-- count and the condition variable.
pub mod State
pub mod Labels
pub mod Removals
pub mod Step
pub mod Numbers
pub mod Moves
pub mod Keys
pub mod Contents
pub mod Calls
pub mod Invariant
pub mod First
pub mod Puts
pub mod Takes
pub mod Clears
pub mod Erases
pub mod Preserved
pub mod Runs
pub mod Order
pub mod Progress
pub mod Rest
pub mod Weight
pub mod Settling
pub mod Attended
pub mod Wakeup
pub mod Forgotten
pub mod Restart
mod Tests
