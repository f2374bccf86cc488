-- ===== src/Thread.antt =====
-- include/hohnor/thread and src/thread.
pub mod BoundedBlockingQueue
pub mod CountDownLatch
pub mod BlockingQueue
pub mod ThreadPool
pub mod Thread
