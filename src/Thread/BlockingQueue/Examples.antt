-- ===== src/Thread/BlockingQueue/Examples.antt =====
-- Tests of include/hohnor/thread/BlockingQueue.h, and an instance of its theorem.
use hohnor.Prelude.{ℕ, ◌≡◌, ◌<◌, ◌⊎◌, refl, List, [], ◌∷◌, ◌++◌, false}
use hohnor.Thread.BlockingQueue.{
  Event, create, size, put, take, put_call, take_call, take_again, step, run,
}
use hohnor.Thread.BlockingQueue.Delivery.{run-delivers}

abbrev schedule : List (Event ℕ)
schedule = take_call ∷ put_call 5 ∷ put_call 6 ∷ take_again ∷ []

handed_over : run create schedule ≡ record {
  queue = 6 ∷ [];
  end_ = false;
  waiting = 0;
  ready = 0;
  stored = 5 ∷ 6 ∷ [];
  taken = 5 ∷ [];
  defaults = 0;
}
unfolding run step put take create
handed_over = refl

run-delivers_example :
    ((run create schedule).taken ++ (run create schedule).queue ≡ (run create schedule).stored)
    × (((run create schedule).waiting ≡ 0)
        ⊎ (0 < (run create schedule).ready)
        ⊎ ((size (run create schedule) ≡ 0) × ((run create schedule).end_ ≡ false)))
run-delivers_example = run-delivers schedule
