-- ===== src/Logger.antt =====
-- The logger: include/impl/SimpleLogger.h, src/impl/SimpleLogger.cpp, and the log file of
-- src/impl/utils.cpp.
pub mod Defs
pub mod Lines
pub mod Output
mod Tests
