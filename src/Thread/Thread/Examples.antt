-- ===== src/Thread/Thread/Examples.antt =====
-- Runs of a thread and its owner, src/thread/Thread.cpp.
use hohnor.Prelude.{◌<◌, ◌≤◌, ◌≡◌, ◌≢◌, refl, true, false, List, [], ◌∷◌, none, some}
use hohnor.Prelude.Int.{pos}
use hohnor.Thread.CountDownLatch
use hohnor.Thread.Thread.{
  Thread, outside, in_join, finished, create, start, start_returns, join, Event, start_call,
  join_call, owner_goes, wakes, thread_goes, step, run,
}
use hohnor.Thread.Thread.Starting.{run-starts}

abbrev schedule : List Event
schedule =
    start_call false
    ∷ start_call true
    ∷ owner_goes
    ∷ wakes
    ∷ owner_goes
    ∷ thread_goes 41
    ∷ thread_goes 0
    ∷ owner_goes
    ∷ owner_goes
    ∷ join_call
    ∷ thread_goes 0
    ∷ owner_goes
    ∷ []

joined_thread :
    run schedule create
    ≡ some (record {
      started = true;
      joined = true;
      tid = 42;
      latch = record { count = pos 0; waiting = 0; ready = 0; passed = 1 };
      owner = outside;
      starter = finished;
      calls = 1;
    })
unfolding run step start start_returns join create CountDownLatch.create CountDownLatch.step
    CountDownLatch.wait CountDownLatch.count_down
joined_thread = refl

started_twice : start true (record create { started = true }) ≡ none
unfolding start create
started_twice = refl

run-starts_example :
    (t : Thread) × (run schedule create ≡ some t)
    × (t.calls ≤ 1)
    × (t.owner ≡ outside → t.started ≡ true → 0 < t.tid)
    × (t.joined ≡ true → t.owner ≢ in_join → t.calls ≡ 1)
run-starts_example = run-starts schedule
