-- ===== src/Core/EventLoop/Wakeup.antt =====
-- src/core/EventLoop.cpp: no functor waits in the queue of a loop that sleeps and will not be woken.
use hohnor.Prelude.{Bool, ◌||◌, ltb}
use hohnor.Core.EventLoop.{is_io_handling, is_ended, is_none_left, System}

-- Nothing waits, or the eventfd is set, or a call of `queueInLoop` is about to set it, or the loop is
-- on its way to the queue, or it has ended.
abbrev pub is_covered : System → Bool
is_covered s =
    is_none_left s.loop.pending
    || ltb 0 s.loop.wake_count
    || ltb 0 s.between
    || is_io_handling s.loop.state
    || is_ended s.loop.state
