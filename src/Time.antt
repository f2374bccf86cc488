-- ===== src/Time.antt =====
-- src/time: dates.
pub mod Date
