-- ===== src/Thread/BoundedBlockingQueue/Examples.antt =====
-- Tests of include/hohnor/thread/BoundedBlockingQueue.h, and instances of its theorems.
use mathlib.Core.List.{reverse}
use hohnor.Prelude.{ℕ, ◌+◌, ◌≡◌, ◌⊎◌, refl, false, List, [], ◌∷◌, ◌++◌, some, arith}
use hohnor.Common.CircularBuffer
use hohnor.Common.CircularBuffer.Contents.{contents}
use hohnor.Thread.BoundedBlockingQueue.{
  BoundedBlockingQueue, System, Event, put_call, take_call, take_again, init, put, take, step, run,
}
use hohnor.Thread.BoundedBlockingQueue.Waiters.{idle, run_total, run_quiescent}
use hohnor.Thread.BoundedBlockingQueue.History.{run_in_order}

abbrev fresh : BoundedBlockingQueue ℕ
fresh = record {
  queue = record { buffer = 0 ∷ 0 ∷ 0 ∷ []; head = 0; tail = 0; max_size = 3 };
  end_ = false;
}

-- A taker sleeps, a putter wakes it, the taker gets the item.
abbrev hand_over : List (Event ℕ)
hand_over = take_call ∷ put_call 7 ∷ put_call 8 ∷ take_again ∷ []

abbrev handed : System ℕ
handed = record {
  base = record {
    queue = record { buffer = 0 ∷ 8 ∷ 0 ∷ []; head = 1; tail = 2; max_size = 3 };
    end_ = false;
  };
  waiting_put = 0;
  ready_put = 0;
  waiting_take = 0;
  ready_take = 0;
  stored = 8 ∷ 7 ∷ [];
  taken = 7 ∷ [];
}

fresh_lem : init 0 2 ≡ some fresh
unfolding init CircularBuffer.create
fresh_lem = refl

hand_over_runs : run 0 (idle fresh) hand_over ≡ some handed
unfolding run step put take idle CircularBuffer.full CircularBuffer.empty CircularBuffer.enqueue
    CircularBuffer.dequeue
hand_over_runs = refl

run_total_example : (t : System ℕ) × (run 0 (idle fresh) hand_over ≡ some t)
run_total_example = run_total 0 2 fresh hand_over (omega arith) fresh_lem

run_quiescent_example :
    ((handed.waiting_take ≡ 0)
      ⊎ ((CircularBuffer.size handed.queue ≡ 0) × (handed.waiting_put ≡ 0)))
    × ((handed.waiting_put ≡ 0) ⊎ (CircularBuffer.size handed.queue + 1 ≡ handed.queue.max_size))
    × ((handed.end_ ≡ false) ⊎ ((handed.waiting_take ≡ 0) × (handed.waiting_put ≡ 0)))
run_quiescent_example =
    run_quiescent 0 2 fresh hand_over handed (omega arith) fresh_lem hand_over_runs refl refl

run_in_order_example : reverse (8 ∷ 7 ∷ []) ≡ reverse (7 ∷ []) ++ contents 0 handed.queue
run_in_order_example =
    run_in_order 0 2 fresh hand_over handed (omega arith) fresh_lem hand_over_runs
