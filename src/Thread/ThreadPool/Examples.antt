-- ===== src/Thread/ThreadPool/Examples.antt =====
-- A pool with one thread.
use hohnor.Prelude.{◌≤◌, ◌≡◌, refl, true, false, [], ◌∷◌, List, none, some, length, ◌>>=◌, arith}
use hohnor.Common.BinaryHeap.Items.{count}
use hohnor.Common.CircularBuffer
use hohnor.Thread.BoundedBlockingQueue
use hohnor.Thread.BoundedBlockingQueue.Waiters.{idle}
use hohnor.Thread.ThreadPool.{
  Callbacks, ThreadPool, Event, run_call, enters, tests, takes, takes_again, completes, started,
  new_queue, set_max_queue_size, step, run_all, pre_thread, pre_task, task,
}
use hohnor.Thread.ThreadPool.Standing.{is_task, is_call}
use hohnor.Thread.ThreadPool.Once.{run_all-at_most_once}
use hohnor.Thread.ThreadPool.Quiet.{AtRest, run_all-rests}

abbrev callbacks : Callbacks
callbacks = record {
  pre_thread_callback = true;
  post_thread_callback = false;
  pre_task_callback = true;
  post_task_callback = false;
}

abbrev one_task : List Event
one_task =
    enters ∷ tests ∷ takes ∷ run_call (some 7) ∷ takes_again ∷ completes 0 ∷ tests ∷ takes ∷ []

abbrev at_rest : ThreadPool
at_rest = record {
  queue = record {
    base = record {
      queue = record { buffer = none ∷ none ∷ none ∷ []; head = 1; tail = 1; max_size = 3 };
      end_ = false;
    };
    waiting_put = 0;
    ready_put = 0;
    waiting_take = 1;
    ready_take = 0;
    stored = some 7 ∷ [];
    taken = some 7 ∷ [];
  };
  callbacks = callbacks;
  threads = 1;
  running = true;
  starting = 0;
  testing = 0;
  taking = 0;
  busy = [];
  busy_threads = 0;
  finished = 0;
  calls = pre_thread ∷ pre_task ∷ task 7 ∷ [];
}

after_one_task : (started callbacks 2 1 >>= λ q. run_all q one_task) ≡ some at_rest
unfolding started new_queue run_all step BoundedBlockingQueue.init BoundedBlockingQueue.step
    BoundedBlockingQueue.put BoundedBlockingQueue.take CircularBuffer.create idle
    CircularBuffer.full CircularBuffer.empty CircularBuffer.enqueue CircularBuffer.dequeue
after_one_task = refl

run_all-at_most_once_example :
    (p : ThreadPool) × ((started callbacks 2 1 >>= λ q. run_all q one_task) ≡ some p)
    × (p.busy_threads ≡ length p.busy)
    × (p.busy_threads ≤ p.threads)
    × (count (is_call 7) p.calls ≤ count (is_task 7) p.queue.stored)
run_all-at_most_once_example =
    run_all-at_most_once 7 callbacks 2 1 one_task (omega arith) (omega arith)

run_all-rests_example : AtRest 7 at_rest
run_all-rests_example =
    run_all-rests 7 callbacks 2 1 one_task at_rest (omega arith) after_one_task (record {
      starting = refl;
      testing = refl;
      taking = refl;
      ready = refl;
      ready_put = refl;
      busy = refl;
      stopped = λ e. cc;
    })

-- 2^32 + 1 becomes 1 as an `int`.
narrowed : (p : ThreadPool) → set_max_queue_size 4294967297 p ≡ none
unfolding set_max_queue_size new_queue BoundedBlockingQueue.init CircularBuffer.create
narrowed p = refl
