-- ===== src/Core/Timer.antt =====
-- src/core/Timer.cpp, as it runs in the loop's thread. Times are microseconds since the epoch; an interval
-- is what `addTime` adds, none where it is not above zero. The callbacks change no timer. `queueInLoop`
-- appends to `queued`.
pub mod Taken
pub mod Popped
pub mod Expiry
pub mod Sharing
mod Examples
use hohnor.Prelude.{
  ℕ, zero, suc, ◌+◌, ◌-◌, ◌*◌, ◌/◌, ◌%◌, Bool, true, false, not, ◌&&◌, List, [], ◌∷◌, ◌++◌, Option,
  none, some, length, if◌then◌else◌, ◌==◌, ltb, leb, ◌>>=◌,
}
use hohnor.Common.BinaryHeap.{insert, pop_top, top}

pub record TimerHandler : Type 0 where
  pub expiration : ℕ
  pub interval : Option ℕ
  pub disabled : Bool
  pub sequence : ℕ
  pub callback : Option ℕ

-- `heap` are the timers that wait, `armed` what the timerfd was last set to; `popped` are the timers that
-- came out of the heap as they were then, `ran` the callbacks that ran and `finished` the timers that do not
-- repeat as they are left, the oldest first.
pub record TimerQueue : Type 0 where
  pub heap : List TimerHandler
  pub queued : List TimerHandler
  pub armed : Option ℕ
  pub popped : List TimerHandler
  pub ran : List ℕ
  pub finished : List TimerHandler
  pub created : ℕ

unfoldable pub create : TimerQueue
create = record {
  heap = [];
  queued = [];
  armed = none;
  popped = [];
  ran = [];
  finished = [];
  created = 0;
}

-- `tv_sec` and `tv_nsec` for a time `when`, at the time `now`.
unfoldable pub how_much_time_from_now : ℕ → ℕ → ℕ × ℕ
how_much_time_from_now when now =
    let microseconds =
      if leb now when then (if ltb (when - now) 100 then 100 else when - now) else 100 in
    (microseconds / 1000000, microseconds % 1000000 * 1000)

abbrev pub timer_cmp_less_than : TimerHandler → TimerHandler → Bool
timer_cmp_less_than a b =
    if ltb a.expiration b.expiration
    then true
    else if ltb b.expiration a.expiration
    then false
    else ltb a.sequence b.sequence

abbrev pub is_repeat : TimerHandler → Bool
is_repeat t = elim t.interval [ none ↦ false | some d ↦ true ]

-- `TimerHandler::run`: the callbacks that run.
unfoldable pub run : TimerHandler → List ℕ
run t = if t.disabled then [] else (elim t.callback [ none ↦ [] | some k ↦ k ∷ [] ])

-- `disable`, in the loop's thread.
unfoldable pub disable : TimerHandler → TimerHandler
disable t = if t.disabled then t else record t { interval = none; disabled = true; callback = none }

unfoldable pub reload_in_loop : TimerHandler → TimerHandler
reload_in_loop t = elim t.interval [
  | none ↦ record t { expiration = 0 }
  | some d ↦ record t { expiration = t.expiration + d }
]

-- What `handleRead` does with a timer that it took out of the heap.
unfoldable pub expire : TimerHandler → List TimerHandler → TimerQueue → TimerQueue
expire t rest q = record q {
  heap = rest;
  queued = (if is_repeat t then q.queued ++ reload_in_loop t ∷ [] else q.queued);
  popped = q.popped ++ t ∷ [];
  ran = q.ran ++ run t;
  finished =
      (if is_repeat t
        then q.finished
        else q.finished ++ record t { disabled = true; callback = none } ∷ []);
}

abbrev pub take_due :
    Option (TimerHandler × List TimerHandler)
    → (TimerHandler → List TimerHandler → Option TimerQueue)
    → Option TimerQueue
take_due none k = none
take_due (some (t, rest)) k = k t rest

-- The loop of `handleRead`; none when the fuel is out.
unfoldable pub expire_loop : ℕ → ℕ → TimerQueue → Option TimerQueue
expire_loop zero now q = none
expire_loop (suc fuel) now q = elim (top timer_cmp_less_than q.heap) [
  | none ↦ some q
  | some first ↦
      if leb first.expiration now
      then (take_due (pop_top timer_cmp_less_than q.heap)
          λ t rest. expire_loop fuel now (expire t rest q))
      else some q
]

abbrev pub reset_timerfd : TimerQueue → TimerQueue
reset_timerfd q = elim (top timer_cmp_less_than q.heap) [
  | none ↦ q
  | some first ↦ record q { armed = some first.expiration }
]

unfoldable pub handle_read : ℕ → TimerQueue → Option TimerQueue
handle_read now q = do r ← expire_loop (length q.heap + 1) now q; some (reset_timerfd r)

unfoldable pub add_timer : Option ℕ → ℕ → Option ℕ → TimerQueue → TimerQueue
add_timer cb when interval q = record q {
  queued =
      q.queued
      ++ record {
        expiration = when;
        interval = interval;
        disabled = false;
        sequence = q.created;
        callback = cb;
      }
        ∷ [];
  created = q.created + 1;
}

-- `addTimerInLoop`, where the timer is then the top if its sequence is the top's.
unfoldable pub add_timer_in_loop : TimerHandler → TimerQueue → Option TimerQueue
add_timer_in_loop t q = do
  heap ← insert timer_cmp_less_than t q.heap
  elim (top timer_cmp_less_than heap) [
    | none ↦ none
    | some first ↦
        if first.sequence == t.sequence
        then some (record q { heap = heap; armed = some t.expiration })
        else some (record q { heap = heap })
  ]
