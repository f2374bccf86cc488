-- ===== src/Thread/BoundedBlockingQueue.antt =====
-- include/hohnor/thread/BoundedBlockingQueue.h: the ring behind a mutex and two conditions. What a
-- thread does between taking the mutex and giving it up (by a return or by `wait`) is one step, and
-- the threads are counted by where they stand.
pub mod Waiters
pub mod History
pub mod Effects
mod Examples
use hohnor.Prelude.{
  ℕ, suc, ◌+◌, ◌-◌, ◌≡◌, Bool, true, false, not, ◌&&◌, List, [], ◌∷◌, Option, none, some,
  if◌then◌else◌, ltb,
}
use hohnor.Common.CircularBuffer.{CircularBuffer, create, full, empty, enqueue, dequeue}
use hohnor.Common.CircularBuffer

pub record BoundedBlockingQueue {ℓ} (A : Type ℓ) : Type ℓ where
  pub queue : CircularBuffer A
  pub end_ : Bool

-- What one pass through `put` comes to, with the mutex held: the loop waits, or `put` returns, or
-- an `assert` fails.
pub data Put {ℓ} (A : Type ℓ) : Type ℓ where
  waits refused faults : Put A
  stores : CircularBuffer A → Put A

pub data Take {ℓ} (A : Type ℓ) : Type ℓ where
  waits faults : Take A
  gives_default : A → Take A
  gives : A → CircularBuffer A → Take A

module _ {ℓ} {A : Type ℓ} where
  unfoldable pub init : A → ℕ → Option (BoundedBlockingQueue A)
  init item max_size = elim (create item max_size) [
    | none ↦ none
    | some b ↦ some (record { queue = b; end_ = false })
  ]

  stored : Option (CircularBuffer A) → Put A
  stored none = Put.faults
  stored (some b) = Put.stores b

  -- Both overloads of `put`.
  unfoldable pub put : BoundedBlockingQueue A → A → Put A
  unfolding stored
  put q x =
      if full q.queue && not q.end_
      then Put.waits
      else if q.end_
      then Put.refused
      else if full q.queue
      then Put.faults
      else stored (enqueue q.queue x)

  given : Option (A × CircularBuffer A) → Take A
  given none = Take.faults
  given (some (x, b)) = Take.gives x b

  -- `item` is `T()`.
  unfoldable pub take : A → BoundedBlockingQueue A → Take A
  unfolding given
  take item q =
      if empty q.queue && not q.end_
      then Take.waits
      else if q.end_
      then Take.gives_default item
      else if empty q.queue
      then Take.faults
      else given (dequeue item q.queue)

  unfoldable pub is_empty : BoundedBlockingQueue A → Bool
  is_empty q = empty q.queue

  unfoldable pub is_full : BoundedBlockingQueue A → Bool
  is_full q = full q.queue

  unfoldable pub size : BoundedBlockingQueue A → ℕ
  size q = CircularBuffer.size q.queue

  unfoldable pub capacity : BoundedBlockingQueue A → ℕ
  capacity q = CircularBuffer.capacity q.queue

-- The queue with its threads: `waiting_` ones sleep on a condition, `ready_` ones have been woken
-- and want the mutex back. `stored` and `taken` record what went in and out, latest first.
pub record System {ℓ} (A : Type ℓ) : Type ℓ where
  pub base : BoundedBlockingQueue A
  pub open base use *
  pub waiting_put : ℕ
  pub ready_put : ℕ
  pub waiting_take : ℕ
  pub ready_take : ℕ
  pub stored : List A
  pub taken : List A

-- A call by a thread that arrives, the next pass of a woken thread, or a wakeup with no notify.
pub data Event {ℓ} (A : Type ℓ) : Type ℓ where
  put_call put_again : A → Event A
  take_call take_again give_up_call spurious_put spurious_take : Event A

module _ {ℓ} {A : Type ℓ} where
  -- `notEmpty_.notify()` and `notFull_.notify()`: one sleeper is woken, if there is one.
  abbrev notify_take : System A → System A
  notify_take s =
      if ltb 0 s.waiting_take
      then record s { waiting_take = s.waiting_take - 1; ready_take = s.ready_take + 1 }
      else s

  abbrev notify_put : System A → System A
  notify_put s =
      if ltb 0 s.waiting_put
      then record s { waiting_put = s.waiting_put - 1; ready_put = s.ready_put + 1 }
      else s

  -- `none` is an assertion failure.
  abbrev after_put : System A → A → Put A → Option (System A)
  after_put s x Put.waits = some (record s { waiting_put = s.waiting_put + 1 })
  after_put s x Put.refused = some s
  after_put s x Put.faults = none
  after_put s x (Put.stores b) =
      some (
        notify_take
          (record s { base = record { queue = b; end_ = s.end_ }; stored = x ∷ s.stored }))

  abbrev after_take : System A → Take A → Option (System A)
  after_take s Take.waits = some (record s { waiting_take = s.waiting_take + 1 })
  after_take s Take.faults = none
  after_take s (Take.gives_default x) = some s
  after_take s (Take.gives x b) =
      some
        (notify_put (record s { base = record { queue = b; end_ = s.end_ }; taken = x ∷ s.taken }))

  -- `giveUp`: `notifyAll` on both conditions.
  unfoldable pub give_up : System A → System A
  give_up s = record s {
    base = record { queue = s.queue; end_ = true };
    waiting_put = 0;
    ready_put = s.ready_put + s.waiting_put;
    waiting_take = 0;
    ready_take = s.ready_take + s.waiting_take;
  }

  -- An event that no thread can make leaves the system as it is.
  unfoldable pub step : A → System A → Event A → Option (System A)
  unfolding give_up
  step item s (put_call x) = after_put s x (put s.base x)
  step item s (put_again x) =
      if ltb 0 s.ready_put
      then after_put (record s { ready_put = s.ready_put - 1 }) x (put s.base x)
      else some s
  step item s take_call = after_take s (take item s.base)
  step item s take_again =
      if ltb 0 s.ready_take
      then after_take (record s { ready_take = s.ready_take - 1 }) (take item s.base)
      else some s
  step item s give_up_call = some (give_up s)
  step item s spurious_put =
      if ltb 0 s.waiting_put
      then some (record s { waiting_put = s.waiting_put - 1; ready_put = s.ready_put + 1 })
      else some s
  step item s spurious_take =
      if ltb 0 s.waiting_take
      then some (record s { waiting_take = s.waiting_take - 1; ready_take = s.ready_take + 1 })
      else some s

  -- A schedule of the threads.
  unfoldable pub run : A → System A → List (Event A) → Option (System A)
  run item s [] = some s
  run item s (e ∷ es) = elim (step item s e) [ none ↦ none | some t ↦ run item t es ]
