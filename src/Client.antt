-- ===== src/Client.antt =====
-- The C++ client over the library: include/client and src/client.
pub mod Bytes
pub mod RocksException
pub mod KvStore
mod Tests
