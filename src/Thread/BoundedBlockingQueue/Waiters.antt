-- ===== src/Thread/BoundedBlockingQueue/Waiters.antt =====
-- include/hohnor/thread/BoundedBlockingQueue.h: no wakeup is lost, and no assertion fails.
use hohnor.Prelude.{
  ℕ, ◌+◌, ◌-◌, ◌≤◌, ◌<◌, ◌≡◌, ◌⊎◌, true, false, List, [], ◌∷◌, Option, none, some, arith,
  Bool-cases, Option-cases, inl, inr, ltb, refl, subst, u64_mod,
}
use hohnor.Common.CircularBuffer
use hohnor.Common.CircularBuffer.{CircularBuffer, create, full, empty, enqueue, dequeue}
use hohnor.Common.CircularBuffer.Contents
use hohnor.Common.CircularBuffer.Contents.{full_iff, empty_iff, create-IsValid, size-lt-max_size}
use hohnor.Common.CircularBuffer.Fifo.{
  enqueue-IsValid, dequeue-IsValid, enqueue_room, dequeue_item, size-enqueue, size-dequeue,
  max_size-enqueue, max_size-dequeue,
}
use hohnor.Thread.BoundedBlockingQueue.{
  BoundedBlockingQueue, Put, Take, System, Event, put_call, put_again, take_call, take_again,
  give_up_call, spurious_put, spurious_take, init, put, take, step, run, after_put, after_take,
  notify_put, notify_take,
}

module _ {ℓ} {A : Type ℓ} where
  -- A sleeping taker leaves at most `a` more items than takers on their way to them; likewise for
  -- putters, free slots and `b`. After `giveUp` nobody sleeps.
  pub record LiveBut (a b : ℕ) (s : System A) : Type 0 where
    pub valid : Contents.IsValid s.queue
    pub takers : 0 < s.waiting_take → CircularBuffer.size s.queue ≤ s.ready_take + a
    pub putters :
        0 < s.waiting_put → s.queue.max_size ≤ CircularBuffer.size s.queue + s.ready_put + b + 1
    pub ended : s.end_ ≡ true → (s.waiting_take ≡ 0) × (s.waiting_put ≡ 0)

  abbrev pub IsLive : System A → Type 0
  IsLive = LiveBut 0 0

  -- The ring after an item went in or out.
  pub record Moved (b c : CircularBuffer A) (before after : ℕ) : Type 0 where
    pub valid : Contents.IsValid c
    pub bound : c.max_size ≡ b.max_size
    pub moved : CircularBuffer.size c + before ≡ CircularBuffer.size b + after

  -- What `put` can come to on a valid ring.
  pub data Putting (q : BoundedBlockingQueue A) (x : A) (r : Put A) : Type ℓ where
    waits :
        r ≡ Put.waits
        → q.end_ ≡ false
        → CircularBuffer.size q.queue + 1 ≡ q.queue.max_size
        → Putting q x r
    refuses : r ≡ Put.refused → q.end_ ≡ true → Putting q x r
    stores :
        (c : CircularBuffer A)
        → r ≡ Put.stores c
        → q.end_ ≡ false
        → enqueue q.queue x ≡ some c
        → Moved q.queue c 0 1
        → Putting q x r

  pub data Taking (item : A) (q : BoundedBlockingQueue A) (r : Take A) : Type ℓ where
    waits : r ≡ Take.waits → q.end_ ≡ false → CircularBuffer.size q.queue ≡ 0 → Taking item q r
    gives_default : r ≡ Take.gives_default item → q.end_ ≡ true → Taking item q r
    gives :
        (x : A) (c : CircularBuffer A)
        → r ≡ Take.gives x c
        → q.end_ ≡ false
        → dequeue item q.queue ≡ some (x, c)
        → Moved q.queue c 1 0
        → Taking item q r

  pub put-Putting :
      (q : BoundedBlockingQueue A) (x : A) → Contents.IsValid q.queue → Putting q x (put q x)
  unfolding put
  put-Putting q x v = elim (Bool-cases q.end_) [
    | inl e ↦ Putting.refuses (ground arith) e
    | inr e ↦ elim (Bool-cases (full q.queue)) [
      | inl f ↦ Putting.waits (ground arith) e (ground (arith, full_iff q.queue v))
      | inr f ↦
          let (c, h) = enqueue_room x q.queue x f in
          Putting.stores c (ground arith) e h (record {
            valid = enqueue-IsValid x q.queue x v h;
            bound = max_size-enqueue x q.queue x h;
            moved = omega (arith, size-enqueue x q.queue x v h);
          })
    ]
  ]

  pub take-Taking :
      (item : A) (q : BoundedBlockingQueue A)
      → Contents.IsValid q.queue
      → Taking item q (take item q)
  unfolding take
  take-Taking item q v = elim (Bool-cases q.end_) [
    | inl e ↦ Taking.gives_default (ground arith) e
    | inr e ↦ elim (Bool-cases (empty q.queue)) [
      | inl f ↦ Taking.waits (ground arith) e (ground (arith, empty_iff q.queue v))
      | inr f ↦
          let (x, c, h) = dequeue_item item q.queue f in
          Taking.gives x c (ground arith) e h (record {
            valid = dequeue-IsValid item q.queue v h;
            bound = max_size-dequeue item q.queue h;
            moved = omega (arith, size-dequeue item q.queue v h);
          })
    ]
  ]

  -- The next state exists and is live.
  abbrev pub Goes : Option (System A) → Type ℓ
  Goes r = (t : System A) × (r ≡ some t) × IsLive t

  notify_take-IsLive :
      (s : System A) (x : A) (c : CircularBuffer A)
      → LiveBut 0 1 s
      → Moved s.queue c 0 1
      → IsLive (
          notify_take
            (record s { base = record { queue = c; end_ = s.end_ }; stored = x ∷ s.stored }))
  notify_take-IsLive s x c l m = elim (Bool-cases (ltb 0 s.waiting_take)) [
    | inl w ↦ rw w (ground arith)
    | inr w ↦ rw w (ground arith)
  ]

  after_put-Goes :
      (s : System A) (x : A)
      → LiveBut 0 1 s
      → Putting s.base x (put s.base x)
      → Goes (after_put s x (put s.base x))
  after_put-Goes s x l (Putting.waits r e h) =
      rw r (record s { waiting_put = s.waiting_put + 1 }, refl, ground arith)
  after_put-Goes s x l (Putting.refuses r e) = rw r (s, refl, ground arith)
  after_put-Goes s x l (Putting.stores c r e h m) = rw r (_, refl, notify_take-IsLive s x c l m)

  notify_put-IsLive :
      (s : System A) (x : A) (c : CircularBuffer A)
      → LiveBut 1 0 s
      → Moved s.queue c 1 0
      → IsLive (
          notify_put (record s { base = record { queue = c; end_ = s.end_ }; taken = x ∷ s.taken }))
  notify_put-IsLive s x c l m = elim (Bool-cases (ltb 0 s.waiting_put)) [
    | inl w ↦ rw w (ground arith)
    | inr w ↦ rw w (ground arith)
  ]

  after_take-Goes :
      (item : A) (s : System A)
      → LiveBut 1 0 s
      → Taking item s.base (take item s.base)
      → Goes (after_take s (take item s.base))
  after_take-Goes item s l (Taking.waits r e h) =
      rw r (record s { waiting_take = s.waiting_take + 1 }, refl, ground arith)
  after_take-Goes item s l (Taking.gives_default r e) = rw r (s, refl, ground arith)
  after_take-Goes item s l (Taking.gives x c r e h m) = rw r (_, refl, notify_put-IsLive s x c l m)

  -- From a live system every event of a thread is handled with no assertion failing, and leaves the
  -- system live: a sleeper is owed no wakeup.
  pub step-IsLive : (item : A) (s : System A) (e : Event A) → IsLive s → Goes (step item s e)
  unfolding step
  step-IsLive item s (put_call x) l =
      after_put-Goes s x (ground arith) (put-Putting s.base x l.valid)
  step-IsLive item s (put_again x) l = elim (Bool-cases (ltb 0 s.ready_put)) [
    | inl w ↦ rw w (
        after_put-Goes (record s { ready_put = s.ready_put - 1 }) x (ground arith)
          (put-Putting s.base x l.valid))
    | inr w ↦ rw w (s, refl, l)
  ]
  step-IsLive item s take_call l =
      after_take-Goes item s (ground arith) (take-Taking item s.base l.valid)
  step-IsLive item s take_again l = elim (Bool-cases (ltb 0 s.ready_take)) [
    | inl w ↦ rw w (
        after_take-Goes item (record s { ready_take = s.ready_take - 1 }) (ground arith)
          (take-Taking item s.base l.valid))
    | inr w ↦ rw w (s, refl, l)
  ]
  step-IsLive item s give_up_call l = (_, refl, ground arith)
  step-IsLive item s spurious_put l = elim (Bool-cases (ltb 0 s.waiting_put)) [
    | inl w ↦ rw w (_, refl, ground arith)
    | inr w ↦ rw w (s, refl, l)
  ]
  step-IsLive item s spurious_take l = elim (Bool-cases (ltb 0 s.waiting_take)) [
    | inl w ↦ rw w (_, refl, ground arith)
    | inr w ↦ rw w (s, refl, l)
  ]

  run-IsLive : (item : A) (s : System A) (es : List (Event A)) → IsLive s → Goes (run item s es)
  unfolding run
  run-IsLive item s [] l = (s, refl, l)
  run-IsLive item s (e ∷ es) l =
      let (t, h, k) = step-IsLive item s e l in rw (h, run) (run-IsLive item t es k)

  -- A queue that nobody uses yet.
  unfoldable pub idle : BoundedBlockingQueue A → System A
  idle q = record {
    base = q;
    waiting_put = 0;
    ready_put = 0;
    waiting_take = 0;
    ready_take = 0;
    stored = [];
    taken = [];
  }

  pub same_state : {r : Option (System A)} (u t : System A) → r ≡ some u → r ≡ some t → u ≡ t
  same_state u t e h = cc

  pub run-IsLive_at :
      (item : A) (s : System A) (es : List (Event A)) (t : System A)
      → IsLive s
      → run item s es ≡ some t
      → IsLive t
  run-IsLive_at item s es t l r =
      let (u, e, k) = run-IsLive item s es l in subst IsLive (same_state u t e r) k

  none_not_some : {q : BoundedBlockingQueue A} → none ≡ some q → ⊥
  none_not_some h = cc

  pub init-create :
      (item : A) (max_size : ℕ) (q : BoundedBlockingQueue A)
      → init item max_size ≡ some q
      → (create item max_size ≡ some q.queue) × (q.end_ ≡ false)
  unfolding init
  init-create item max_size q h = elim (Option-cases (create item max_size)) [
    | inl e ↦ absurd (none_not_some (rw (e, init) at h))
    | inr (b, e) ↦ from_ring b e (rw (e, init) at h)
  ]
    where
      from_ring :
          (b : CircularBuffer A)
          → create item max_size ≡ some b
          → some (record { queue = b; end_ = false }) ≡ some q
          → (create item max_size ≡ some q.queue) × (q.end_ ≡ false)
      from_ring b e h = ground arith

  pub init-IsLive :
      (item : A) (max_size : ℕ) (q : BoundedBlockingQueue A)
      → max_size + 1 < u64_mod
      → init item max_size ≡ some q
      → IsLive (idle q)
  unfolding idle
  init-IsLive item max_size q w h =
      let (c, e) = init-create item max_size q h in ground (arith, create-IsValid item max_size w c)

  -- On every schedule of threads that put, take, wake up and give up, no assertion of the queue
  -- fails: the run ends in a state.
  pub run_total :
      (item : A) (max_size : ℕ) (q : BoundedBlockingQueue A) (es : List (Event A))
      → max_size + 1 < u64_mod
      → init item max_size ≡ some q
      → (t : System A) × (run item (idle q) es ≡ some t)
  run_total item max_size q es w h =
      let (t, e, l) = run-IsLive item (idle q) es (init-IsLive item max_size q w h) in (t, e)

  -- No wakeup is lost: when no woken thread is left to run, a sleeping taker means that the queue is
  -- empty and no putter sleeps, a sleeping putter that it is full, and after `giveUp` nobody sleeps.
  pub run_quiescent :
      (item : A) (max_size : ℕ) (q : BoundedBlockingQueue A) (es : List (Event A)) (t : System A)
      → max_size + 1 < u64_mod
      → init item max_size ≡ some q
      → run item (idle q) es ≡ some t
      → t.ready_take ≡ 0
      → t.ready_put ≡ 0
      → ((t.waiting_take ≡ 0) ⊎ ((CircularBuffer.size t.queue ≡ 0) × (t.waiting_put ≡ 0)))
        × ((t.waiting_put ≡ 0) ⊎ (CircularBuffer.size t.queue + 1 ≡ t.queue.max_size))
        × ((t.end_ ≡ false) ⊎ ((t.waiting_take ≡ 0) × (t.waiting_put ≡ 0)))
  run_quiescent item max_size q es t w h r rt rp =
      let l = run-IsLive_at item (idle q) es t (init-IsLive item max_size q w h) r in
      (
        ground (arith, size-lt-max_size t.queue l.valid),
        ground (arith, size-lt-max_size t.queue l.valid),
        ground arith,
      )
