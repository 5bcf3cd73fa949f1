-- ===== src/Engine.antt =====
-- RocksDB as the code uses it: a parameter. `W` is the state of everything outside the library, the
-- disk, the open database and the clock included; each call is a function of it. What the calls are
-- assumed to do is in `Laws`, and `Memory` is an instance of both.
mod Types
pub mod Laws
pub mod Memory
pub use Types.{Handle, Tx, Iter, EngineStatus, status_ok, Options, Opened, Engine}
