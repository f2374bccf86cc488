-- ===== src/Log/AsyncLogging/Examples.antt =====
-- A log with a destructor that comes early.
use hohnor.Prelude.{◌≡◌, ◌++◌, refl, false, ◌+◌, ◌≤◌, length, List, [], ◌∷◌, some, none, map, arith}
use hohnor.Thread.BlockingQueue
use hohnor.Log.AsyncLogging.{
  finished, append, create, Event, adds, stops, flushes_last, thread_goes, add_log, last_flush,
  set_stop, thread_step, step, run,
}
use hohnor.Log.AsyncLogging.Requests.{asked, handed_in}
use hohnor.Log.AsyncLogging.Written.{pending, run-in_order}
use hohnor.Log.AsyncLogging.Stopping.{run-finishes, run-drops}

abbrev one_line : List Event
one_line = adds (some (7 ∷ [])) ∷ thread_goes ∷ thread_goes ∷ thread_goes ∷ []

one_line_written : (run create one_line).outputs ≡ append (7 ∷ []) ∷ []
unfolding run step create add_log thread_step BlockingQueue.create BlockingQueue.put
    BlockingQueue.step BlockingQueue.take
one_line_written = refl

run-in_order_example :
    (run create one_line).outputs
      ++ pending (run create one_line).phase
      ++ map asked (run create one_line).queue.queue
    ≡ map asked (handed_in false one_line)
run-in_order_example = run-in_order one_line

abbrev ending : List Event
ending = adds (some (7 ∷ [])) ∷ stops ∷ flushes_last ∷ []

run-finishes_example :
    (run (run create ending) (thread_goes ∷ thread_goes ∷ thread_goes ∷ [])).phase ≡ finished
unfolding run step create set_stop last_flush
run-finishes_example =
    run-finishes ending (thread_goes ∷ thread_goes ∷ thread_goes ∷ []) refl (omega arith)

-- Three records wait when the destructor comes.
abbrev three_waiting : List Event
three_waiting =
    adds (some (7 ∷ [])) ∷ adds (some (8 ∷ [])) ∷ adds (some (9 ∷ [])) ∷ stops ∷ flushes_last ∷ []

run-drops_example :
    length (run (run create three_waiting) (thread_goes ∷ adds none ∷ thread_goes ∷ [])).outputs
    ≤ length (run create three_waiting).outputs + 1
unfolding run step create set_stop
run-drops_example = run-drops three_waiting (thread_goes ∷ adds none ∷ thread_goes ∷ []) refl
