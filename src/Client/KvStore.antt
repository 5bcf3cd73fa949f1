-- ===== src/Client/KvStore.antt =====
-- include/client/KVStore.h and src/client/KVStore.cpp.
pub mod Defs
pub mod Throws
pub mod Sorted
