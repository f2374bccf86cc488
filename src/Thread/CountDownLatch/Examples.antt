-- ===== src/Thread/CountDownLatch/Examples.antt =====
-- Tests of include/hohnor/thread/CountDownLatch.h, and an instance of its theorem.
use hohnor.Prelude.{◌≡◌, ◌<◌, ◌⊎◌, refl, List, [], ◌∷◌, arith}
use hohnor.Prelude.Int.{pos}
use hohnor.Thread.CountDownLatch.{
  Event, create, wait, count_down, wait_call, wait_again, count_call, spurious, step, run,
}
use hohnor.Thread.CountDownLatch.Opening.{downs, run-opens}

abbrev schedule : List Event
schedule = wait_call ∷ count_call ∷ spurious ∷ wait_again ∷ wait_call ∷ count_call ∷ wait_again ∷ []

opened :
    run (create (pos 2)) schedule ≡ record { count = pos 0; waiting = 0; ready = 1; passed = 1 }
unfolding run step wait count_down create
opened = refl

run-opens_example :
    ((2 < 2) × ((run (create (pos 2)) schedule).passed ≡ 0))
    ⊎ (◌≡◌ (downs schedule) 2 × ((run (create (pos 2)) schedule).waiting ≡ 0))
run-opens_example = run-opens 2 schedule (omega arith)
