-- ===== src/Log.antt =====
-- The log's stream: include/hohnor/log and src/log.
pub mod LogStream
pub mod LogFile
pub mod AsyncLogging
