-- ===== src/Engine/Memory.antt =====
-- An engine in memory that meets the laws: what the examples run on.
mod Least
mod State
mod Instance
pub use State.{Memory, Layer, memory, fresh_memory}
pub use Instance.{memory_laws, memory_laws-view}
