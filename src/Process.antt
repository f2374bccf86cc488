-- ===== src/Process.antt =====
-- src/process: what a process says of itself.
pub mod ProcessInfo
