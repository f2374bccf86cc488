-- ===== src/File.antt =====
-- src/file: files that are written at their end.
pub mod AppendFile
pub mod ReadSmallFile
