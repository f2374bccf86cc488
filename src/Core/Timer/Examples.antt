-- ===== src/Core/Timer/Examples.antt =====
-- Tests of src/core/Timer.cpp, and instances of its theorems.
use hohnor.Prelude.{◌+◌, ◌==◌, ◌≡◌, refl, not, true, false, List, [], ◌∷◌, ◌++◌, none, some}
use hohnor.Common.BinaryHeap.{pop_top, top, percolate_down, percolate_down_loop, proper_parent}
use hohnor.Common.BinaryHeap.Items.{count}
use hohnor.Common.BinaryHeap.Order.{is_heap}
use hohnor.Core.Timer.{
  TimerHandler, TimerQueue, timer_cmp_less_than, handle_read, expire_loop, expire, run,
  reload_in_loop,
}
use hohnor.Core.Timer.Taken.{callbacks_of, repeats_of, ended_of}
use hohnor.Core.Timer.Popped.{are_sorted, is_due}
use hohnor.Core.Timer.Sharing.{
  Step, enter_one, add_one, update_one, read_at, disable_one, run_all, disable_by_handle,
}
use hohnor.Core.Timer.Sharing.Silence.{run_all-silent}
use hohnor.Core.Timer.Expiry.{handle_read-due}

abbrev at_five : TimerHandler
at_five = record {
  expiration = 5;
  interval = some 10;
  disabled = false;
  sequence = 1;
  callback = some 7;
}

abbrev at_seven : TimerHandler
at_seven = record {
  expiration = 7;
  interval = none;
  disabled = false;
  sequence = 0;
  callback = some 8;
}

abbrev at_nine : TimerHandler
at_nine = record { expiration = 9; interval = none; disabled = true; sequence = 2; callback = none }

abbrev queue : TimerQueue
queue = record {
  heap = at_five ∷ at_nine ∷ at_seven ∷ [];
  queued = [];
  armed = none;
  popped = [];
  ran = [];
  finished = [];
  created = 3;
}

two_due :
    handle_read 8 queue
    ≡ some (record queue {
      heap = at_nine ∷ [];
      queued = record at_five { expiration = 15 } ∷ [];
      armed = some 9;
      popped = at_five ∷ at_seven ∷ [];
      ran = 7 ∷ 8 ∷ [];
      finished = record at_seven { disabled = true; callback = none } ∷ [];
    })
unfolding handle_read expire_loop expire run reload_in_loop pop_top top percolate_down
    percolate_down_loop proper_parent
two_due = refl

handle_read-due_example :
    (r : TimerQueue) × (out : List TimerHandler) × (handle_read 8 queue ≡ some r)
    × (r.popped ≡ queue.popped ++ out)
    × (r.ran ≡ queue.ran ++ callbacks_of out)
    × (r.queued ≡ queue.queued ++ repeats_of out)
    × (r.finished ≡ queue.finished ++ ended_of out)
    × (are_sorted out ≡ true)
    × (count (λ t. not (is_due 8 t)) out ≡ 0)
    × (count (is_due 8) r.heap ≡ 0)
    × (count (is_due 6) out + count (is_due 6) r.heap ≡ count (is_due 6) queue.heap)
    × (is_heap timer_cmp_less_than r.heap ≡ true)
handle_read-due_example = handle_read-due 8 (is_due 6) queue refl

-- A timer that repeats, which runs, is disabled while it waits among the functors, and is read again.
abbrev later : List Step
later =
    enter_one
    ∷ add_one (some 3) 20 (some 4)
    ∷ enter_one
    ∷ update_one 2 (some 5)
    ∷ read_at 30
    ∷ enter_one
    ∷ disable_one 3
    ∷ read_at 90
    ∷ []

run_all-silent_example :
    (r : TimerQueue) × (run_all later (disable_by_handle 1 queue) ≡ some r)
    × (count (λ c. c == 7) r.ran ≡ count (λ c. c == 7) queue.ran)
    × (is_heap timer_cmp_less_than r.heap ≡ true)
run_all-silent_example = run_all-silent 7 1 later queue refl refl refl refl
