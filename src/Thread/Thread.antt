-- ===== src/Thread/Thread.antt =====
-- src/thread/Thread.cpp: a thread with the object that owns it, which another thread starts, joins and destroys.
-- The function returns. A step is what one of the two does between two points where the other can run; a
-- failed assertion and a use of the destroyed object are `none`.
pub mod Standing
pub mod Latched
pub mod Calls
pub mod Starting
mod Examples
use hohnor.Prelude.{
  ℕ, ◌+◌, Bool, true, false, not, ◌&&◌, List, [], ◌∷◌, Option, none, some, ltb, if◌then◌else◌,
  ◌>>=◌,
}
use hohnor.Prelude.Int.{pos}
use hohnor.Thread.CountDownLatch
use hohnor.Thread.CountDownLatch.{CountDownLatch, count_down, wait_call, wait_again, spurious}

-- Where the owner stands: outside, in `start` before the wait on the latch or in it, in `join`, or past the
-- destructor.
pub data Owner : Type 0 where
  outside at_wait in_wait in_join gone : Owner

-- Where the thread stands in `threadStarter`.
pub data Starter : Type 0 where
  not_made begun has_tid counted finished : Starter

-- `calls` counts the calls of `func_`.
pub record Thread : Type 0 where
  pub started : Bool
  pub joined : Bool
  pub tid : ℕ
  pub latch : CountDownLatch
  pub owner : Owner
  pub starter : Starter
  pub calls : ℕ

unfoldable pub create : Thread
create = record {
  started = false;
  joined = false;
  tid = 0;
  latch = CountDownLatch.create (pos 1);
  owner = outside;
  starter = not_made;
  calls = 0;
}

-- `start` up to the wait; `made` is whether `pthread_create` succeeds.
unfoldable pub start : Bool → Thread → Option Thread
start made t =
    if t.started
    then none
    else if made
    then some (record t { started = true; owner = at_wait; starter = begun })
    else some t

-- The wait has returned.
unfoldable pub start_returns : Thread → Option Thread
start_returns t = if ltb 0 t.tid then some (record t { owner = outside }) else none

unfoldable pub join : Thread → Option Thread
join t =
    if t.started && not t.joined then some (record t { joined = true; owner = in_join }) else none

abbrev pub is_outside : Owner → Bool
is_outside outside = true
is_outside at_wait = false
is_outside in_wait = false
is_outside in_join = false
is_outside gone = false

-- A use of the object, which is freed past the destructor.
abbrev pub touching : Owner → Option Thread → Option Thread
touching outside m = m
touching at_wait m = m
touching in_wait m = m
touching in_join m = m
touching gone m = none

-- `threadStarter` with the id that the kernel gives, one more than `n`; the references to the object's id and
-- latch are used until the latch is counted down.
abbrev pub thread_step : ℕ → Owner → Starter → Thread → Option Thread
thread_step n o not_made t = some t
thread_step n o begun t = touching o (some (record t { tid = n + 1; starter = has_tid }))
thread_step n o has_tid t =
    touching o (some (record t { latch = count_down t.latch; starter = counted }))
thread_step n o counted t = some (record t { calls = t.calls + 1; starter = finished })
thread_step n o finished t = some t

-- The owner in the latch and in `join`.
abbrev pub owner_step : Owner → Starter → Thread → Option Thread
owner_step at_wait s t =
    some (record t { latch = CountDownLatch.step t.latch wait_call; owner = in_wait })
owner_step in_wait s t =
    if ltb 0 t.latch.passed
    then start_returns t
    else some (record t { latch = CountDownLatch.step t.latch wait_again })
owner_step in_join finished t = some (record t { owner = outside })
owner_step in_join not_made t = some t
owner_step in_join begun t = some t
owner_step in_join has_tid t = some t
owner_step in_join counted t = some t
owner_step outside s t = some t
owner_step gone s t = some t

pub data Event : Type 0 where
  start_call : Bool → Event
  join_call destroy_call owner_goes wakes : Event
  thread_goes : ℕ → Event

-- A call is made from outside, and only as its assertions allow.
unfoldable pub step : Event → Thread → Option Thread
step (start_call made) t = if is_outside t.owner && not t.started then start made t else some t
step join_call t = if is_outside t.owner && (t.started && not t.joined) then join t else some t
step destroy_call t = if is_outside t.owner then some (record t { owner = gone }) else some t
step owner_goes t = owner_step t.owner t.starter t
step wakes t = some (record t { latch = CountDownLatch.step t.latch spurious })
step (thread_goes n) t = thread_step n t.owner t.starter t

unfoldable pub run : List Event → Thread → Option Thread
run [] t = some t
run (e ∷ es) t = do t' ← step e t; run es t'
