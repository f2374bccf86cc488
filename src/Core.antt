-- ===== src/Core.antt =====
-- The event loop and its handlers: include/hohnor/core and src/core.
pub mod IoHandler
pub mod EventLoop
pub mod Timer
pub mod Signal
pub mod SignalMap
pub mod Keyboard
