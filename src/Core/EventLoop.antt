-- ===== src/Core/EventLoop.antt =====
-- src/core/EventLoop.cpp: the phases of the loop, its queue of functors and the eventfd that wakes
-- it. A functor is a number; none is the null one that the loop checks for.
pub mod Wakeup
pub mod Moves
pub mod Order
pub mod Turn
mod Examples
use hohnor.Prelude.{
  ℕ, ◌+◌, ◌-◌, ◌^◌, Bool, true, false, not, ◌&&◌, ◌||◌, List, [], ◌∷◌, ◌++◌, Option, none, some,
  if◌then◌else◌, ◌==◌, ltb, add64, ◌>>=◌,
}

pub data LoopState : Type 0 where
  ready polling io_handling pending_handling ended : LoopState

abbrev pub is_ready : LoopState → Bool
is_ready ready = true
is_ready polling = false
is_ready io_handling = false
is_ready pending_handling = false
is_ready ended = false

abbrev pub is_polling : LoopState → Bool
is_polling polling = true
is_polling ready = false
is_polling io_handling = false
is_polling pending_handling = false
is_polling ended = false

abbrev pub is_io_handling : LoopState → Bool
is_io_handling io_handling = true
is_io_handling ready = false
is_io_handling polling = false
is_io_handling pending_handling = false
is_io_handling ended = false

abbrev pub is_pending_handling : LoopState → Bool
is_pending_handling pending_handling = true
is_pending_handling ready = false
is_pending_handling polling = false
is_pending_handling io_handling = false
is_pending_handling ended = false

abbrev pub is_ended : LoopState → Bool
is_ended ended = true
is_ended ready = false
is_ended polling = false
is_ended io_handling = false
is_ended pending_handling = false

-- `wake_count` is the eventfd's counter and `wake_ready` says that it is among the events of the last
-- poll that are still to be handled; `funcs` is the local vector of `loop()`; `pool` is the queue of
-- `threadPool_`, where there is one.
pub record EventLoop : Type 0 where
  pub state : LoopState
  pub quit : Bool
  pub thread_id : ℕ
  pub iteration : ℕ
  pub wake_count : ℕ
  pub wake_ready : Bool
  pub pending : List ℕ
  pub funcs : List ℕ
  pub pool : Option (List ℕ)

unfoldable pub create : ℕ → EventLoop
create t = record {
  state = ready;
  quit = false;
  thread_id = t;
  iteration = 0;
  wake_count = 0;
  wake_ready = false;
  pending = [];
  funcs = [];
  pool = none;
}

abbrev pub is_loop_thread : ℕ → EventLoop → Bool
is_loop_thread t l = t == l.thread_id

-- `eventfd(2)`, as `wakeUp` uses it: the counter goes no higher than 2^64 - 2.
abbrev pub counted : ℕ → ℕ
counted n = if ltb n (2 ^ 64 - 2) then n + 1 else n

unfoldable pub wake_up : EventLoop → EventLoop
wake_up l = if is_ended l.state then l else record l { wake_count = counted l.wake_count }

unfoldable pub handle_wake_up : EventLoop → EventLoop
handle_wake_up l = record l { wake_count = 0 }

-- `queueInLoop` is two steps, since its lock is let go between them. The test of the thread and the state after
-- the push is one with the write to the eventfd.
unfoldable pub push : ℕ → EventLoop → EventLoop
push f l = record l { pending = l.pending ++ f ∷ [] }

unfoldable pub wake_after_push : ℕ → EventLoop → EventLoop
wake_after_push t l =
    if not (is_loop_thread t l) || is_pending_handling l.state || is_ready l.state
    then wake_up l
    else l

unfoldable pub queue_in_loop : ℕ → ℕ → EventLoop → EventLoop
queue_in_loop t f l = if is_ended l.state then l else wake_after_push t (push f l)

-- The second part tells whether the callback ran in place.
unfoldable pub run_in_loop : ℕ → ℕ → EventLoop → EventLoop × Bool
run_in_loop t f l =
    if is_loop_thread t l
    then (l, true)
    else (if is_ended l.state then (l, false) else (queue_in_loop t f l, false))

unfoldable pub set_thread_pools : ℕ → EventLoop → EventLoop
set_thread_pools size l =
    if ltb 0 size then record l { pool = some [] } else record l { pool = none }

unfoldable pub run_in_pool : ℕ → ℕ → EventLoop → EventLoop × Bool
run_in_pool t f l = if is_ended l.state then (l, false) else (elim l.pool [
  | some tasks ↦ (record l { pool = some (tasks ++ f ∷ []) }, false)
  | none ↦ run_in_loop t f l
])

-- `loop()` behind its `while`: the handlers are disabled and the queue is cleared.
unfoldable pub finish : EventLoop → EventLoop
finish l = record l { state = ended; pending = []; wake_ready = false }

-- The test of `while (!quit_)`, with the start of the turn.
unfoldable pub next_turn : EventLoop → EventLoop
next_turn l =
    if l.quit then finish l else record l { iteration = add64 l.iteration 1; state = polling }

-- `loop()` up to its first wait, in thread `t`, where `other` tells whether a loop runs there.
unfoldable pub start_loop : ℕ → Bool → EventLoop → Option EventLoop
start_loop t other l =
    if is_ended l.state
    then some l
    else (if other then none else some (next_turn (record l { thread_id = t })))

-- `wait()` returned.
unfoldable pub poll_returned : EventLoop → EventLoop
poll_returned l = record l { state = io_handling; wake_ready = ltb 0 l.wake_count }

-- The handler of the eventfd runs, if it is among the events.
unfoldable pub run_wake_handler : EventLoop → EventLoop
run_wake_handler l = if l.wake_ready then record (handle_wake_up l) { wake_ready = false } else l

unfoldable pub take_pending : EventLoop → EventLoop
take_pending l = record l { state = pending_handling; funcs = l.pending; pending = [] }

-- `endLoop()` in thread `t`: storing `quit_` and the reads of the state after it are one step.
unfoldable pub end_loop : ℕ → Bool → EventLoop → Option EventLoop
end_loop t other l =
    let asked = record l { quit = true } in
    if is_ready l.state
    then start_loop t other asked
    else some (if is_ended l.state then asked else wake_up asked)

-- The steps of the loop's thread, and of the others: `push_functor` and `wake_loop` are the two steps
-- of a call of `queueInLoop` in another thread, `queue_own` one in a callback of the loop's thread.
pub data Event : Type 0 where
  start : ℕ → Event
  poll_return run_wake take_functors run_first turn wake_loop : Event
  push_functor queue_own : ℕ → Event
  ask_end : ℕ → Event

-- The loop, how many calls stand between their two steps, and the functors that went into the queue
-- and that the loop ran from it, in order.
pub record System : Type 0 where
  pub loop : EventLoop
  pub between : ℕ
  pub queued : List ℕ
  pub done : List ℕ

abbrev pub with_loop : System → EventLoop → Option System
with_loop s l = some (record s { loop = l })

abbrev run_first_of : System → List ℕ → Option System
run_first_of s [] = none
run_first_of s (f ∷ fs) =
    some (record s { loop = record s.loop { funcs = fs }; done = s.done ++ f ∷ [] })

abbrev pub is_none_left : List ℕ → Bool
is_none_left [] = true
is_none_left (f ∷ fs) = false

-- A step, where it can be made. A callback of the loop's thread runs in its two handling phases.
unfoldable pub step : Event → System → Option System
step (start t) s =
    if is_ready s.loop.state
    then elim (start_loop t false s.loop) [ none ↦ none | some l ↦ with_loop s l ]
    else none
step poll_return s = if is_polling s.loop.state then with_loop s (poll_returned s.loop) else none
step run_wake s =
    if is_io_handling s.loop.state then with_loop s (run_wake_handler s.loop) else none
step take_functors s =
    if is_io_handling s.loop.state && not s.loop.wake_ready
    then with_loop s (take_pending s.loop)
    else none
step run_first s = if is_pending_handling s.loop.state then run_first_of s s.loop.funcs else none
step turn s =
    if is_pending_handling s.loop.state && is_none_left s.loop.funcs
    then with_loop s (next_turn s.loop)
    else none
step wake_loop s =
    if ltb 0 s.between
    then some (record s { loop = wake_up s.loop; between = s.between - 1 })
    else none
step (push_functor f) s =
    if is_ended s.loop.state
    then some s
    else some
        (record s { loop = push f s.loop; between = s.between + 1; queued = s.queued ++ f ∷ [] })
step (queue_own f) s =
    if is_io_handling s.loop.state || is_pending_handling s.loop.state
    then some
        (record s { loop = queue_in_loop s.loop.thread_id f s.loop; queued = s.queued ++ f ∷ [] })
    else none
step (ask_end t) s = elim (end_loop t false s.loop) [ none ↦ none | some l ↦ with_loop s l ]

unfoldable pub run : List Event → System → Option System
run [] s = some s
run (e ∷ es) s = elim (step e s) [ none ↦ none | some t ↦ run es t ]

abbrev pub initial : ℕ → System
initial t = record { loop = create t; between = 0; queued = []; done = [] }
