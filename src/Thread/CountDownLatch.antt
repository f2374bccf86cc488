-- ===== src/Thread/CountDownLatch.antt =====
-- include/hohnor/thread/CountDownLatch.h: the latch with the threads that wait on it. What a thread does
-- between taking the mutex and giving it up is one step; the count is an integer that does not overflow.
pub mod Opening
mod Examples
use hohnor.Prelude.{ℕ, ◌+◌, ◌-◌, Bool, true, false, List, [], ◌∷◌, ltb, if◌then◌else◌}
use hohnor.Prelude.Int.{ℤ, pos, negsuc, ltb_ℤ}

-- `waiting` threads sleep in `wait`, `ready` ones have been woken and want the mutex back, and `passed`
-- ones have returned from it.
pub record CountDownLatch : Type 0 where
  pub count : ℤ
  pub waiting : ℕ
  pub ready : ℕ
  pub passed : ℕ

unfoldable pub create : ℤ → CountDownLatch
create n = record { count = n; waiting = 0; ready = 0; passed = 0 }

-- A pass of the loop of `wait`, by a thread that holds the mutex.
unfoldable pub wait : CountDownLatch → CountDownLatch
wait l =
    if ltb_ℤ (pos 0) l.count
    then record l { waiting = l.waiting + 1 }
    else record l { passed = l.passed + 1 }

unfoldable pub get_count : CountDownLatch → ℤ
get_count l = l.count

abbrev pub minus_one : ℤ → ℤ
minus_one (pos n) = if ltb 0 n then pos (n - 1) else negsuc 0
minus_one (negsuc n) = negsuc (n + 1)

abbrev pub is_zero_ℤ : ℤ → Bool
is_zero_ℤ (pos n) = if ltb 0 n then false else true
is_zero_ℤ (negsuc n) = false

abbrev pub notify_all : CountDownLatch → CountDownLatch
notify_all l = record l { waiting = 0; ready = l.ready + l.waiting }

unfoldable pub count_down : CountDownLatch → CountDownLatch
count_down l =
    let less = record l { count = minus_one l.count } in
    if is_zero_ℤ (minus_one l.count) then notify_all less else less

-- A call by a thread that arrives, the next pass of a woken thread, a call of `countDown`, and a wakeup
-- with no notify. An event that no thread can make leaves the latch as it is.
pub data Event : Type 0 where
  wait_call wait_again count_call spurious : Event

unfoldable pub step : CountDownLatch → Event → CountDownLatch
step l wait_call = wait l
step l wait_again = if ltb 0 l.ready then wait (record l { ready = l.ready - 1 }) else l
step l count_call = count_down l
step l spurious =
    if ltb 0 l.waiting then record l { waiting = l.waiting - 1; ready = l.ready + 1 } else l

unfoldable pub run : CountDownLatch → List Event → CountDownLatch
run l [] = l
run l (e ∷ es) = run (step l e) es
