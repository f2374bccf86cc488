-- ===== src/Thread/BoundedBlockingQueue/Effects.antt =====
-- include/hohnor/thread/BoundedBlockingQueue.h: what a step does to the takers and to the items taken.
use hohnor.Prelude.{
  ℕ, ◌+◌, ◌-◌, ◌<◌, ◌≡◌, refl, ◌∷◌, Option, none, some, ltb, arith, if_elim, lt→ltb,
}
use hohnor.Common.CircularBuffer.{CircularBuffer}
use hohnor.Common.CircularBuffer.Contents
use hohnor.Thread.BoundedBlockingQueue.{
  Take, System, put_call, put_again, take_call, take_again, spurious_put, spurious_take, put, take,
  step, after_put, after_take,
}
use hohnor.Thread.BoundedBlockingQueue.Waiters.{Putting, Taking, put-Putting, take-Taking}

module _ {ℓ} {A : Type ℓ} where
  -- The takers are as many, and nothing is taken.
  pub record Aside (s t : System A) : Type ℓ where
    pub takers : t.waiting_take + t.ready_take ≡ s.waiting_take + s.ready_take
    pub taken : t.taken ≡ s.taken

  abbrev pub GoesAside : System A → Option (System A) → Type ℓ
  GoesAside s none = Unit
  GoesAside s (some t) = Aside s t × (t.end_ ≡ s.end_)

  after_put-GoesAside :
      (s : System A) (x : A) (n : ℕ)
      → Contents.IsValid s.queue
      → GoesAside s (after_put (record s { ready_put = n }) x (put s.base x))
  after_put-GoesAside s x n v = by_case (put-Putting s.base x v)
    where
      by_case :
          Putting s.base x (put s.base x)
          → GoesAside s (after_put (record s { ready_put = n }) x (put s.base x))
      by_case (Putting.waits r e h) = rw r (record { takers = refl; taken = refl }, refl)
      by_case (Putting.refuses r e) = rw r (record { takers = refl; taken = refl }, refl)
      by_case (Putting.stores c r e h m) = rw r (
          if_elim (λ t. GoesAside s (some t)) (ltb 0 s.waiting_take)
            (λ w. (record { takers = ground arith; taken = refl }, refl))
            (λ w. (record { takers = refl; taken = refl }, refl)))

  pub put_call-Aside :
      (item : A) (s : System A) (x : A)
      → Contents.IsValid s.queue
      → GoesAside s (step item s (put_call x))
  unfolding step
  put_call-Aside item s x v = after_put-GoesAside s x s.ready_put v

  pub put_again-Aside :
      (item : A) (s : System A) (x : A)
      → Contents.IsValid s.queue
      → GoesAside s (step item s (put_again x))
  unfolding step
  put_again-Aside item s x v =
      if_elim (GoesAside s) (ltb 0 s.ready_put) (λ w. after_put-GoesAside s x (s.ready_put - 1) v)
        (λ w. (record { takers = refl; taken = refl }, refl))

  pub spurious_put-Aside : (item : A) (s : System A) → GoesAside s (step item s spurious_put)
  unfolding step
  spurious_put-Aside item s =
      if_elim (GoesAside s) (ltb 0 s.waiting_put)
        (λ w. (record { takers = refl; taken = refl }, refl))
        (λ w. (record { takers = refl; taken = refl }, refl))

  pub spurious_take-Aside : (item : A) (s : System A) → GoesAside s (step item s spurious_take)
  unfolding step
  spurious_take-Aside item s =
      if_elim (GoesAside s) (ltb 0 s.waiting_take)
        (λ w. (record { takers = ground arith; taken = refl }, refl))
        (λ w. (record { takers = refl; taken = refl }, refl))

  -- What a pass of `take` leaves, for the caller that it sends to sleep or gives an item.
  pub data Passed (item : A) (s : System A) (r : Take A) (t : System A) : Type ℓ where
    sleeps :
        r ≡ Take.waits
        → t.waiting_take + t.ready_take ≡ s.waiting_take + s.ready_take + 1
        → t.taken ≡ s.taken
        → t.end_ ≡ s.end_
        → Passed item s r t
    gets_default :
        r ≡ Take.gives_default item
        → t.waiting_take + t.ready_take ≡ s.waiting_take + s.ready_take
        → t.taken ≡ s.taken
        → t.end_ ≡ s.end_
        → Passed item s r t
    gets :
        (x : A) (b : CircularBuffer A)
        → r ≡ Take.gives x b
        → t.waiting_take + t.ready_take ≡ s.waiting_take + s.ready_take
        → t.taken ≡ x ∷ s.taken
        → t.end_ ≡ s.end_
        → Passed item s r t

  abbrev pub Passes : A → System A → Take A → Option (System A) → Type ℓ
  Passes item s r none = Unit
  Passes item s r (some t) = Passed item s r t

  after_take-Passes :
      (item : A) (s : System A)
      → Contents.IsValid s.queue
      → Passes item s (take item s.base) (after_take s (take item s.base))
  after_take-Passes item s v = by_case (take-Taking item s.base v)
    where
      by_case :
          Taking item s.base (take item s.base)
          → Passes item s (take item s.base) (after_take s (take item s.base))
      by_case (Taking.waits r e h) = rw r (Passed.sleeps refl (omega arith) refl refl)
      by_case (Taking.gives_default r e) = rw r (Passed.gets_default refl refl refl refl)
      by_case (Taking.gives x c r e h m) = rw r (
          if_elim (λ t. Passes item s (Take.gives x c) (some t)) (ltb 0 s.waiting_put)
            (λ w. Passed.gets x c refl refl refl refl) (λ w. Passed.gets x c refl refl refl refl))

  pub take_call-Passes :
      (item : A) (s : System A)
      → Contents.IsValid s.queue
      → Passes item s (take item s.base) (step item s take_call)
  unfolding step
  take_call-Passes item s v = after_take-Passes item s v

  pub take_again-Passes :
      (item : A) (s : System A)
      → Contents.IsValid s.queue
      → 0 < s.ready_take
      → Passes item
          (record s { ready_take = s.ready_take - 1 })
          (take item s.base)
          (step item s take_again)
  unfolding step
  take_again-Passes item s v w =
      rw (lt→ltb _ _ w) (after_take-Passes item (record s { ready_take = s.ready_take - 1 }) v)
