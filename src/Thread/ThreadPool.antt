-- ===== src/Thread/ThreadPool.antt =====
-- src/thread/ThreadPool.cpp, over the bounded queue. The threads of the pool are counted by where they stand in
-- `runInThread`, and those in `take` by the queue. What the thread does with the queue's mutex is one step, and
-- so is a task with the callbacks around it.
pub mod Standing
pub mod Once
pub mod Quiet
mod Examples
use hohnor.Prelude.{
  ℕ, zero, suc, ◌+◌, ◌-◌, ◌%◌, ◌^◌, Bool, true, false, List, [], ◌∷◌, ◌++◌, Option, none, some,
  length, ltb, ◌==◌, if◌then◌else◌, ◌>>=◌,
}
use hohnor.Thread.BoundedBlockingQueue
use hohnor.Thread.BoundedBlockingQueue.{BoundedBlockingQueue, Take, System, init}
use hohnor.Thread.BoundedBlockingQueue.Waiters.{idle}

-- A task is known by a number; none is an empty `std::function`.
abbrev pub Task : Type 0
Task = Option ℕ

pub data Call : Type 0 where
  pre_thread post_thread pre_task post_task : Call
  task : ℕ → Call

-- Which of the four callbacks are set.
pub record Callbacks : Type 0 where
  pub pre_thread_callback : Bool
  pub post_thread_callback : Bool
  pub pre_task_callback : Bool
  pub post_task_callback : Bool

-- `threads` is the size of `pool_`. Of these, `starting` have not begun, `testing` are at the loop's test,
-- `taking` before `take`, and `busy` have a task in hand; `calls` is what was called, the oldest first.
pub record ThreadPool : Type 0 where
  pub queue : System Task
  pub callbacks : Callbacks
  pub threads : ℕ
  pub running : Bool
  pub starting : ℕ
  pub testing : ℕ
  pub taking : ℕ
  pub busy : List Task
  pub busy_threads : ℕ
  pub finished : ℕ
  pub calls : List Call

-- The conversion of a `size_t` to the `int` that the queue's constructor takes. A negative one becomes a size
-- near 2^64 again, for which there is no memory: none.
abbrev pub as_int : ℕ → Option ℕ
as_int size = if ltb (size % 2 ^ 32) (2 ^ 31) then some (size % 2 ^ 32) else none

-- The constructor and `setMaxQueueSize`; the queue is replaced.
abbrev pub queue_size : ℕ → Option ℕ
queue_size size = as_int (if ltb size 2 then 42 else size)

-- The queue that replaces the old one; its ring refuses a size below 2.
unfoldable pub new_queue : ℕ → Option (BoundedBlockingQueue Task)
new_queue size = do n ← queue_size size; init none n

unfoldable pub create : Callbacks → Option ThreadPool
create c = do
  q ← new_queue 42
  some (record {
    queue = idle q;
    callbacks = c;
    threads = 0;
    running = false;
    starting = 0;
    testing = 0;
    taking = 0;
    busy = [];
    busy_threads = 0;
    finished = 0;
    calls = [];
  })

unfoldable pub set_max_queue_size : ℕ → ThreadPool → Option ThreadPool
set_max_queue_size size p = do q ← new_queue size; some (record p { queue = idle q })

unfoldable pub queue_capacity : ThreadPool → ℕ
queue_capacity p = BoundedBlockingQueue.capacity p.queue.base - 1

abbrev pub called : Bool → Call → List Call → List Call
called on c calls = if on then calls ++ c ∷ [] else calls

-- `start`; none is the failed assertion.
unfoldable pub start : ℕ → ThreadPool → Option ThreadPool
start thread_num p =
    if p.threads == 0
    then some (record p {
      running = true;
      threads = thread_num;
      starting = thread_num;
      calls =
          (if thread_num == 0
            then called p.callbacks.pre_thread_callback pre_thread p.calls
            else p.calls);
    })
    else none

-- A new pool, with a queue of the given size and its threads started.
unfoldable pub started : Callbacks → ℕ → ℕ → Option ThreadPool
unfolding create set_max_queue_size start
started c size thread_num = do p ← create c; q ← set_max_queue_size size p; start thread_num q

-- The item at a place of a list, and the others.
abbrev pub pick {ℓ} : {A : Type ℓ} → ℕ → List A → Option (A × List A)
pick i [] = none
pick zero (x ∷ xs) = some (x, xs)
pick (suc i) (x ∷ xs) = elim (pick i xs) [ none ↦ none | some (y, ys) ↦ some (y, x ∷ ys) ]

-- What a thread of the pool calls for a task, and what `run` calls where there are no threads.
abbrev pub call_task : Callbacks → Task → List Call → List Call
call_task c none calls = calls
call_task c (some k) calls =
    called c.post_task_callback post_task (called c.pre_task_callback pre_task calls ++ task k ∷ [])

-- An event of the queue that is not a take by a thread of the pool.
abbrev pub on_queue : BoundedBlockingQueue.Event Task → ThreadPool → Option ThreadPool
on_queue e p = do s ← BoundedBlockingQueue.step none p.queue e; some (record p { queue = s })

abbrev pub call_inline : Task → ThreadPool → Option ThreadPool
call_inline none p = none
call_inline (some k) p = some (record p { calls = p.calls ++ task k ∷ [] })

-- `run`, until it returns or waits for room.
unfoldable pub run : Task → ThreadPool → Option ThreadPool
run t p = if p.threads == 0 then call_inline t p else on_queue (BoundedBlockingQueue.put_call t) p

-- The two parts of `stop` before it joins.
unfoldable pub stop_running : ThreadPool → Option ThreadPool
stop_running p = some (record p { running = false })

unfoldable pub stop_giving_up : ThreadPool → Option ThreadPool
stop_giving_up p = if p.running then some p else on_queue BoundedBlockingQueue.give_up_call p

-- The steps of `runInThread`: up to the loop, its test, a pass of `take`, and the rest of the body.
unfoldable pub enter : ThreadPool → ThreadPool
enter p =
    if ltb 0 p.starting
    then record p {
      starting = p.starting - 1;
      testing = p.testing + 1;
      calls = called p.callbacks.pre_thread_callback pre_thread p.calls;
    }
    else p

unfoldable pub test : ThreadPool → ThreadPool
test p =
    if ltb 0 p.testing
    then (if p.running
        then record p { testing = p.testing - 1; taking = p.taking + 1 }
        else record p {
          testing = p.testing - 1;
          finished = p.finished + 1;
          calls = called p.callbacks.post_thread_callback post_thread p.calls;
        })
    else p

-- The pool after a pass of `take` that left the queue as `s`.
abbrev pub after_take : Take Task → System Task → ThreadPool → Option ThreadPool
after_take Take.waits s p = some (record p { queue = s })
after_take Take.faults s p = none
after_take (Take.gives_default x) s p =
    some (record p { queue = s; busy = x ∷ p.busy; busy_threads = p.busy_threads + 1 })
after_take (Take.gives x b) s p =
    some (record p { queue = s; busy = x ∷ p.busy; busy_threads = p.busy_threads + 1 })

abbrev pub pass : BoundedBlockingQueue.Event Task → ThreadPool → Option ThreadPool
pass e p = do
  s ← BoundedBlockingQueue.step none p.queue e
  after_take (BoundedBlockingQueue.take none p.queue.base) s p

unfoldable pub take : ThreadPool → Option ThreadPool
take p =
    if ltb 0 p.taking
    then pass BoundedBlockingQueue.take_call (record p { taking = p.taking - 1 })
    else some p

unfoldable pub take_again : ThreadPool → Option ThreadPool
take_again p = if ltb 0 p.queue.ready_take then pass BoundedBlockingQueue.take_again p else some p

abbrev pub finish : Option (Task × List Task) → ThreadPool → ThreadPool
finish none p = p
finish (some (t, others)) p = record p {
  busy = others;
  busy_threads = p.busy_threads - 1;
  testing = p.testing + 1;
  calls = call_task p.callbacks t p.calls;
}

unfoldable pub complete : ℕ → ThreadPool → ThreadPool
complete i p = finish (pick i p.busy) p

pub data Event : Type 0 where
  run_call run_again : Task → Event
  stop_runs stop_gives_up enters tests takes takes_again spurious_put spurious_take : Event
  completes : ℕ → Event

unfoldable pub step : ThreadPool → Event → Option ThreadPool
unfolding run stop_running stop_giving_up enter test take take_again complete
step p (run_call t) = run t p
step p (run_again t) = on_queue (BoundedBlockingQueue.put_again t) p
step p stop_runs = stop_running p
step p stop_gives_up = stop_giving_up p
step p enters = some (enter p)
step p tests = some (test p)
step p takes = take p
step p takes_again = take_again p
step p spurious_put = on_queue BoundedBlockingQueue.spurious_put p
step p spurious_take = on_queue BoundedBlockingQueue.spurious_take p
step p (completes i) = some (complete i p)

-- A schedule of the threads.
unfoldable pub run_all : ThreadPool → List Event → Option ThreadPool
run_all p [] = some p
run_all p (e ∷ es) = elim (step p e) [ none ↦ none | some q ↦ run_all q es ]
