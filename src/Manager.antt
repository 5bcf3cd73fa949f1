-- ===== src/Manager.antt =====
-- include/impl/KueueManagerImpl.h and src/impl/librocks.cpp: the queues of one store, and the two
-- entry points of the library.
pub mod Defs
pub mod Closing
pub mod Getting
pub mod Opening
mod Tests
