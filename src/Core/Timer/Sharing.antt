-- ===== src/Core/Timer/Sharing.antt =====
-- src/core/Timer.cpp: the timers are shared between the queue, the functors and the program, which reaches them
-- by their handles. A handle is the timer's sequence.
pub mod Carries
pub mod Steps
pub mod Silence
pub mod Clearing
use hohnor.Prelude.{
  ℕ, zero, suc, ◌+◌, Bool, true, false, List, [], ◌∷◌, ◌++◌, map, Option, none, some, length,
  if◌then◌else◌, ◌==◌, ◌>>=◌,
}
use hohnor.Common.BinaryHeap.{pop_top}
use hohnor.Core.Timer.{
  TimerHandler, TimerQueue, timer_cmp_less_than, disable, handle_read, add_timer, add_timer_in_loop,
  take_due,
}

-- `updateCallback`, in the loop's thread.
unfoldable pub update_callback : Option ℕ → TimerHandler → TimerHandler
update_callback cb t = if t.disabled then t else record t { callback = cb }

abbrev pub if_handle : ℕ → (TimerHandler → TimerHandler) → TimerHandler → TimerHandler
if_handle s change t = if t.sequence == s then change t else t

-- A timer that is through with is disabled already, and neither call changes it.
unfoldable pub disable_by_handle : ℕ → TimerQueue → TimerQueue
disable_by_handle s q = record q {
  heap = map (if_handle s disable) q.heap;
  queued = map (if_handle s disable) q.queued;
}

unfoldable pub update_by_handle : ℕ → Option ℕ → TimerQueue → TimerQueue
update_by_handle s cb q = record q {
  heap = map (if_handle s (update_callback cb)) q.heap;
  queued = map (if_handle s (update_callback cb)) q.queued;
}

-- What a program and its loop do: `add_one` is a call of `addTimer`, `enter_one` the first functor that is
-- queued, `read_at` a call of `handleRead`, and the others are calls through a handle.
pub data Step : Type 0 where
  add_one : Option ℕ → ℕ → Option ℕ → Step
  enter_one : Step
  read_at : ℕ → Step
  disable_one : ℕ → Step
  update_one : ℕ → Option ℕ → Step

unfoldable pub enter : List TimerHandler → TimerQueue → Option TimerQueue
enter [] q = some q
enter (t ∷ ts) q = add_timer_in_loop t (record q { queued = ts })

abbrev pub step : Step → TimerQueue → Option TimerQueue
step (add_one cb when interval) q = some (add_timer cb when interval q)
step enter_one q = enter q.queued q
step (read_at now) q = handle_read now q
step (disable_one s) q = some (disable_by_handle s q)
step (update_one s cb) q = some (update_by_handle s cb q)

unfoldable pub run_all : List Step → TimerQueue → Option TimerQueue
run_all [] q = some q
run_all (s ∷ steps) q = do r ← step s q; run_all steps r

-- The loop of the destructor; none when the fuel is out.
unfoldable pub destroy_loop : ℕ → List TimerHandler → List TimerHandler → Option (List TimerHandler)
destroy_loop zero heap done = none
destroy_loop (suc fuel) [] done = some done
destroy_loop (suc fuel) (t ∷ ts) done = elim (pop_top timer_cmp_less_than (t ∷ ts)) [
  | none ↦ none
  | some taken ↦ destroy_loop fuel taken.1 (done ++ disable taken.0 ∷ [])
]

abbrev pub destroy : TimerQueue → Option (List TimerHandler)
destroy q = destroy_loop (length q.heap + 1) q.heap []
