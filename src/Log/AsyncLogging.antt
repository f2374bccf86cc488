-- ===== src/Log/AsyncLogging.antt =====
-- src/log/AsyncLogging.cpp over the unbounded queue: a thread that takes the buffers of others and hands them to
-- `output_append` and `output_flush`. What it does between two calls of the queue is a step.
pub mod Requests
pub mod Written
pub mod Stopping
mod Examples
use hohnor.Prelude.{
  ℕ, zero, suc, ◌+◌, Bool, true, false, List, [], ◌∷◌, ◌++◌, Option, none, some, ltb, if◌then◌else◌,
}
use hohnor.Thread.BlockingQueue
use hohnor.Thread.BlockingQueue.{BlockingQueue}

-- The data of a buffer; none is the `nullptr` that `flush` hands in.
abbrev pub Buffer : Type 0
Buffer = Option (List ℕ)

pub data Output : Type 0 where
  append : List ℕ → Output
  flush : Output

-- Where the log thread stands: at the test of its loop, before `take`, in it, with a buffer in hand, or at its
-- end.
pub data Phase : Type 0 where
  testing taking in_take finished : Phase
  holds : Buffer → Phase

pub record AsyncLog : Type 0 where
  pub queue : BlockingQueue Buffer
  pub phase : Phase
  pub stop : Bool
  pub flushed : Bool
  pub outputs : List Output

-- The constructor, which starts the thread.
unfoldable pub create : AsyncLog
create = record {
  queue = BlockingQueue.create;
  phase = testing;
  stop = false;
  flushed = false;
  outputs = [];
}

unfoldable pub add_log : Buffer → AsyncLog → AsyncLog
add_log b a = record a { queue = BlockingQueue.put b a.queue }

unfoldable pub flush_log : AsyncLog → AsyncLog
unfolding add_log
flush_log a = add_log none a

-- The two parts of the destructor before it joins.
unfoldable pub set_stop : AsyncLog → AsyncLog
set_stop a = record a { stop = true }

unfoldable pub last_flush : AsyncLog → AsyncLog
unfolding flush_log
last_flush a = if a.stop then record (flush_log a) { flushed = true } else a

-- `logThreadFunc` by the place where the thread stands. Nobody calls `giveUp`, so that `take` sleeps on an
-- empty queue and otherwise gives the first buffer.
abbrev pub in_hand : List Buffer → Phase
in_hand [] = in_take
in_hand (b ∷ bs) = holds b

abbrev pub output_of : Buffer → Output
output_of none = flush
output_of (some bytes) = append bytes

unfoldable pub thread_step : Phase → AsyncLog → AsyncLog
thread_step testing a =
    if a.stop then record a { phase = finished } else record a { phase = taking }
thread_step taking a = record a {
  phase = in_hand a.queue.queue;
  queue = BlockingQueue.step a.queue BlockingQueue.take_call;
}
thread_step in_take a =
    if ltb 0 a.queue.ready
    then record a {
      phase = in_hand a.queue.queue;
      queue = BlockingQueue.step a.queue BlockingQueue.take_again;
    }
    else a
thread_step (holds b) a = record a { phase = testing; outputs = a.outputs ++ output_of b ∷ [] }
thread_step finished a = a

pub data Event : Type 0 where
  adds : Buffer → Event
  stops flushes_last thread_goes spurious : Event

unfoldable pub step : AsyncLog → Event → AsyncLog
unfolding add_log set_stop last_flush thread_step
step a (adds b) = add_log b a
step a stops = set_stop a
step a flushes_last = last_flush a
step a thread_goes = thread_step a.phase a
step a spurious = record a { queue = BlockingQueue.step a.queue BlockingQueue.spurious }

unfoldable pub run : AsyncLog → List Event → AsyncLog
run a [] = a
run a (e ∷ es) = run (step a e) es
