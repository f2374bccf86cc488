-- ===== src/Core/EventLoop/Examples.antt =====
-- Tests of src/core/EventLoop.cpp, and instances of its theorems.
use hohnor.Prelude.{ℕ, ◌≡◌, refl, List, [], ◌∷◌, ◌++◌, ◌||◌, some, none, true, false}
use hohnor.Core.EventLoop.{
  EventLoop, System, Event, polling, ended, is_ended, is_none_left, create, start, push_functor,
  wake_loop, queue_own, poll_return, run_wake, take_functors, run_first, turn, step, run, initial,
  end_loop, push, next_turn, poll_returned, run_wake_handler, handle_wake_up, take_pending,
  wake_after_push, finish, queue_in_loop, wake_up, start_loop,
}
use hohnor.Core.EventLoop.Order.{done-in_order}
use hohnor.Core.EventLoop.Turn.{whole_turn, Turned, run-whole_turn}

-- Two functors from elsewhere; the first queues a third while the loop runs it.
abbrev events : List Event
events =
    push_functor 5
    ∷ wake_loop
    ∷ start 0
    ∷ push_functor 6
    ∷ poll_return
    ∷ run_wake
    ∷ take_functors
    ∷ run_first
    ∷ queue_own 7
    ∷ run_first
    ∷ turn
    ∷ []

abbrev asleep : System
asleep = record {
  loop = record {
    state = polling;
    quit = false;
    thread_id = 0;
    iteration = 2;
    wake_count = 1;
    wake_ready = false;
    pending = 7 ∷ [];
    funcs = [];
    pool = none;
  };
  between = 1;
  queued = 5 ∷ 6 ∷ 7 ∷ [];
  done = 5 ∷ 6 ∷ [];
}

events_lem : run events (initial 0) ≡ some asleep
unfolding run step create start_loop wake_up push next_turn poll_returned run_wake_handler
    handle_wake_up take_pending queue_in_loop wake_after_push
events_lem = refl

abbrev over : EventLoop
over = record asleep.loop { state = ended }

ending_before_start :
    end_loop 0 false (create 0) ≡ some (record (create 0) { quit = true; state = ended })
unfolding end_loop create start_loop next_turn finish
ending_before_start = refl

done-in_order_example :
    (dropped : List ℕ) × (asleep.done ++ (asleep.loop.funcs ++ (asleep.loop.pending ++ dropped))
      ≡ asleep.queued)
    × (is_ended asleep.loop.state || is_none_left dropped ≡ true)
done-in_order_example = done-in_order 0 events {s = asleep} events_lem

run-whole_turn_example :
    (t : System) × (run (whole_turn (7 ∷ [])) asleep ≡ some t) × Turned asleep t (7 ∷ [])
run-whole_turn_example = run-whole_turn asleep refl
