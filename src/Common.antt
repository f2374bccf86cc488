-- ===== src/Common.antt =====
-- The headers of include/hohnor/common.
pub mod CircularBuffer
pub mod Buffer
pub mod BinaryHeap
