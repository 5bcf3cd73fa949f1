-- ===== src/Codec.antt =====
-- putU64BE and getU64BE of include/impl/KueueImpl.h: the keys of a queue. A machine word is a number
-- below 2 ^ 64, and memory is little-endian.
pub mod Bytes
pub mod RoundTrip
pub mod Order
mod Tests
