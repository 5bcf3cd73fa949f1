-- ===== src/Client/Bytes.antt =====
-- include/client/bytes.h and src/client/bytes.cpp.
pub mod Defs
pub mod Ownership
