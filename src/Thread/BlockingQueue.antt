-- ===== src/Thread/BlockingQueue.antt =====
-- include/hohnor/thread/BlockingQueue.h: the queue without a bound, with the threads that take from it.
-- What a thread does between taking the mutex and giving it up is one step.
pub mod Delivery
mod Examples
use hohnor.Prelude.{
  ℕ, ◌+◌, ◌-◌, Bool, true, false, not, ◌&&◌, List, [], ◌∷◌, ◌++◌, Option, none, some, length, ltb,
  if◌then◌else◌,
}

-- `waiting` takers sleep, `ready` ones have been woken and want the mutex back; `stored` and `taken` are
-- the items that went in and out, the oldest first, and `defaults` counts the takes that gave `T()`.
pub record BlockingQueue {ℓ} (A : Type ℓ) : Type ℓ where
  pub queue : List A
  pub end_ : Bool
  pub waiting : ℕ
  pub ready : ℕ
  pub stored : List A
  pub taken : List A
  pub defaults : ℕ

-- A call by a thread that arrives, the next pass of a woken taker, and a wakeup with no notify.
pub data Event {ℓ} (A : Type ℓ) : Type ℓ where
  put_call : A → Event A
  take_call take_again give_up_call spurious : Event A

module _ {ℓ} {A : Type ℓ} where
  unfoldable pub create : BlockingQueue A
  create = record {
    queue = [];
    end_ = false;
    waiting = 0;
    ready = 0;
    stored = [];
    taken = [];
    defaults = 0;
  }

  abbrev pub notify : BlockingQueue A → BlockingQueue A
  notify q =
      if ltb 0 q.waiting then record q { waiting = q.waiting - 1; ready = q.ready + 1 } else q

  -- Both overloads of `put`, which do not look at `end_`.
  unfoldable pub put : A → BlockingQueue A → BlockingQueue A
  put x q = notify (record q { queue = q.queue ++ x ∷ []; stored = q.stored ++ x ∷ [] })

  abbrev pub take_of : BlockingQueue A → List A → BlockingQueue A
  take_of q [] = record q { waiting = q.waiting + 1 }
  take_of q (x ∷ xs) = record q { queue = xs; taken = q.taken ++ x ∷ [] }

  -- A pass of the loop of `take`; its assertion stands where the queue is not empty.
  unfoldable pub take : BlockingQueue A → BlockingQueue A
  take q = if q.end_ then record q { defaults = q.defaults + 1 } else take_of q q.queue

  unfoldable pub size : BlockingQueue A → ℕ
  size q = length q.queue

  unfoldable pub give_up : BlockingQueue A → BlockingQueue A
  give_up q = record q { end_ = true; waiting = 0; ready = q.ready + q.waiting }

  -- An event that no thread can make leaves the queue as it is.
  unfoldable pub step : BlockingQueue A → Event A → BlockingQueue A
  step q (put_call x) = put x q
  step q take_call = take q
  step q take_again = if ltb 0 q.ready then take (record q { ready = q.ready - 1 }) else q
  step q give_up_call = give_up q
  step q spurious =
      if ltb 0 q.waiting then record q { waiting = q.waiting - 1; ready = q.ready + 1 } else q

  unfoldable pub run : BlockingQueue A → List (Event A) → BlockingQueue A
  run q [] = q
  run q (e ∷ es) = run (step q e) es
