-- ===== src/Thread/ThreadPool/Once.antt =====
-- src/thread/ThreadPool.cpp: on every schedule, no assertion fails and no task is called twice.
use hohnor.Prelude.{
  ℕ, ◌+◌, ◌-◌, ◌≤◌, ◌<◌, ◌≡◌, refl, sym, true, false, List, [], ◌∷◌, Option, none, some, length,
  ltb, ◌==◌, if_elim, arith, ltb→lt, u64_mod, ◌%◌, ◌^◌, if◌then◌else◌, Bool-cases, inl, inr,
  none_not_some, leb, add64, replicate, ◌>>=◌,
}
use hohnor.Common.BinaryHeap.Items.{count}
use hohnor.Common.CircularBuffer.Contents.{contents, create-IsValid}
use hohnor.Common.CircularBuffer
use hohnor.Thread.BoundedBlockingQueue
use hohnor.Thread.BoundedBlockingQueue.{
  BoundedBlockingQueue, System, put_call, put_again, take_call, give_up_call, init,
}
use hohnor.Thread.BoundedBlockingQueue.Waiters.{IsLive, idle, init-IsLive, init-create}
use hohnor.Thread.BoundedBlockingQueue.Effects.{
  put_call-Aside, put_again-Aside, spurious_put-Aside, spurious_take-Aside, take_call-Passes,
  take_again-Passes,
}
use hohnor.Thread.ThreadPool.{
  Task, pre_thread, post_thread, ThreadPool, Callbacks, pick, finish, Event, run_call, run_again,
  stop_runs, stop_gives_up, enters, tests, takes, takes_again, spurious_put, spurious_take,
  completes, run, stop_running, stop_giving_up, enter, test, take, take_again, complete, step,
  run_all, started, new_queue, as_int,
}
use hohnor.Thread.ThreadPool.Standing.{
  is_task, is_call, IsPool, GoesOn, Picked, pick-Picked, count-called, count-call_task,
  on_queue-GoesOn, give_up-GoesOn, count-stored, pass-GoesOn,
}

init_lem :
    (n : ℕ)
    → leb 2 n ≡ true
    → (q : BoundedBlockingQueue Task) × (init none n ≡ some q) × (q.end_ ≡ false)
unfolding init CircularBuffer.create
init_lem n h = (
  record {
    queue = record {
      buffer = replicate (add64 n 1) none;
      head = 0;
      tail = 0;
      max_size = add64 n 1;
    };
    end_ = false;
  },
  rw (h, init) refl,
  refl,
)

module _ (k : ℕ) where
  enter-IsPool : (p : ThreadPool) → IsPool k p → IsPool k (enter p)
  unfolding enter
  enter-IsPool p v =
      if_elim (IsPool k) (ltb 0 p.starting)
        (λ w. record {
          started = v.started;
          live = v.live;
          order = v.order;
          all_threads = omega (arith, v.all_threads, ltb→lt _ _ w);
          busy = v.busy;
          ended = v.ended;
          finished = v.finished;
          once = omega (
            arith,
            v.once,
            count-called k p.callbacks.pre_thread_callback pre_thread p.calls refl,
          );
        })
        (λ _. v)

  test-IsPool : (p : ThreadPool) → IsPool k p → IsPool k (test p)
  unfolding test
  test-IsPool p v =
      if_elim (IsPool k) (ltb 0 p.testing)
        (λ w.
          if_elim (IsPool k) p.running
            (λ r. record {
              started = v.started;
              live = v.live;
              order = v.order;
              all_threads = omega (arith, v.all_threads, ltb→lt _ _ w);
              busy = v.busy;
              ended = v.ended;
              finished = v.finished;
              once = v.once;
            })
            (λ r. record {
              started = v.started;
              live = v.live;
              order = v.order;
              all_threads = omega (arith, v.all_threads, ltb→lt _ _ w);
              busy = v.busy;
              ended = v.ended;
              finished = λ h. cc;
              once = omega (
                arith,
                v.once,
                count-called k p.callbacks.post_thread_callback post_thread p.calls refl,
              );
            }))
        (λ _. v)

  finish-IsPool :
      (p : ThreadPool) (r : Option (Task × List Task))
      → Picked k p.busy r
      → IsPool k p
      → IsPool k (finish r p)
  finish-IsPool p none h v = v
  finish-IsPool p (some (t, others)) (l, c) v = record {
    started = v.started;
    live = v.live;
    order = v.order;
    all_threads = omega (arith, v.all_threads, l);
    busy = omega (arith, v.busy, l);
    ended = v.ended;
    finished = v.finished;
    once = omega (arith, v.once, c, count-call_task k p.callbacks t p.calls);
  }

  take-GoesOn : (p : ThreadPool) → IsPool k p → GoesOn k (take p)
  unfolding take
  take-GoesOn p v =
      if_elim (GoesOn k) (ltb 0 p.taking)
        (λ w.
          pass-GoesOn k take_call (record p { taking = p.taking - 1 }) p.queue v.started v.live
            v.order (take_call-Passes none p.queue v.live.valid) (refl, refl)
            (omega (arith, v.all_threads, ltb→lt _ _ w)) v.busy v.ended v.finished v.once)
        (λ _. (p, refl, v))

  take_again-GoesOn : (p : ThreadPool) → IsPool k p → GoesOn k (take_again p)
  unfolding take_again
  take_again-GoesOn p v =
      if_elim (GoesOn k) (ltb 0 p.queue.ready_take)
        (λ w.
          pass-GoesOn k BoundedBlockingQueue.take_again p
            (record p.queue { ready_take = p.queue.ready_take - 1 }) v.started v.live v.order
            (take_again-Passes none p.queue v.live.valid (ltb→lt _ _ w)) (refl, refl)
            (omega (arith, v.all_threads, ltb→lt _ _ w)) v.busy v.ended v.finished v.once)
        (λ _. (p, refl, v))

  -- Every step of a pool with threads.
  step-GoesOn : (p : ThreadPool) (e : Event) → IsPool k p → GoesOn k (step p e)
  unfolding step run stop_running stop_giving_up complete
  step-GoesOn p (run_call t) v =
      if_elim (GoesOn k) (p.threads == 0) (λ w. absurd (ground (arith, v.started)))
        (λ _. on_queue-GoesOn k (put_call t) p v (put_call-Aside none p.queue t v.live.valid))
  step-GoesOn p (run_again t) v =
      on_queue-GoesOn k (put_again t) p v (put_again-Aside none p.queue t v.live.valid)
  step-GoesOn p stop_runs v = (
    record p { running = false },
    refl,
    record {
      started = v.started;
      live = v.live;
      order = v.order;
      all_threads = v.all_threads;
      busy = v.busy;
      ended = λ _. refl;
      finished = λ h. cc;
      once = v.once;
    },
  )
  step-GoesOn p stop_gives_up v =
      if_elim (GoesOn k) p.running (λ _. (p, refl, v)) (λ f. give_up-GoesOn k p v f)
  step-GoesOn p enters v = (enter p, refl, enter-IsPool p v)
  step-GoesOn p tests v = (test p, refl, test-IsPool p v)
  step-GoesOn p takes v = take-GoesOn p v
  step-GoesOn p takes_again v = take_again-GoesOn p v
  step-GoesOn p spurious_put v =
      on_queue-GoesOn k BoundedBlockingQueue.spurious_put p v (spurious_put-Aside none p.queue)
  step-GoesOn p spurious_take v =
      on_queue-GoesOn k BoundedBlockingQueue.spurious_take p v (spurious_take-Aside none p.queue)
  step-GoesOn p (completes i) v =
      (complete i p, refl, finish-IsPool p (pick i p.busy) (pick-Picked k i p.busy) v)

  pub run_all-GoesOn : (p : ThreadPool) (es : List Event) → IsPool k p → GoesOn k (run_all p es)
  unfolding run_all
  run_all-GoesOn p [] v = (p, refl, v)
  run_all-GoesOn p (e ∷ es) v =
      let (q, r, w) = step-GoesOn p e v in rw (r, run_all) (run_all-GoesOn q es w)

  -- What a new queue is like, if there is one.
  new_queue_lem :
      (size : ℕ) (q : BoundedBlockingQueue Task)
      → new_queue size ≡ some q
      → (q.end_ ≡ false) × IsLive (idle q) × (contents none q.queue ≡ [])
  unfolding new_queue
  new_queue_lem size q h = by_int (if ltb size 2 then 42 else size) h
    where
      of_init :
          (n : ℕ)
          → n + 1 < u64_mod
          → init none n ≡ some q
          → (q.end_ ≡ false) × IsLive (idle q) × (contents none q.queue ≡ [])
      of_init n w r =
          let (c, e) = init-create none n q r in
          (e, init-IsLive none n q w r, (create-IsValid none n w c).1)

      by_int :
          (s : ℕ)
          → (as_int s >>= λ n. init none n) ≡ some q
          → (q.end_ ≡ false) × IsLive (idle q) × (contents none q.queue ≡ [])
      by_int s h = elim (Bool-cases (ltb (s % 2 ^ 32) (2 ^ 31))) [
        | inl y ↦ of_init (s % 2 ^ 32) (omega arith) (rw y at h)
        | inr n ↦ absurd (none_not_some (rw n at h))
      ]

  -- A size that an `int` holds gives a queue.
  pub new_queue-some :
      (size : ℕ) → size < 2 ^ 31 → (q : BoundedBlockingQueue Task) × (new_queue size ≡ some q)
  unfolding new_queue
  new_queue-some size h =
      let n = if ltb size 2 then 42 else size in
      let fits : ltb (n % 2 ^ 32) (2 ^ 31) ≡ true = ground arith in
      let enough : leb 2 (n % 2 ^ 32) ≡ true = ground arith in
      let (q, r, _) = init_lem (n % 2 ^ 32) enough in (q, rw fits r)

  pub started-IsPool :
      (c : Callbacks) (size n : ℕ) (q : BoundedBlockingQueue Task)
      → 0 < n
      → new_queue size ≡ some q
      → (p : ThreadPool) × (started c size n ≡ some p) × IsPool k p × (p.threads ≡ n)
  unfolding started idle
  started-IsPool c size n q h r =
      let (q₀, r₀) = new_queue-some 42 (omega arith) in
      let (e, l, o) = new_queue_lem size q r in
      let positive : (n == 0) ≡ false = ground arith in
      (
        record {
          queue = idle q;
          callbacks = c;
          threads = n;
          running = true;
          starting = n;
          testing = 0;
          taking = 0;
          busy = [];
          busy_threads = 0;
          finished = 0;
          calls = [];
        },
        rw (r₀, r, positive) refl,
        record {
          started = h;
          live = l;
          order = sym o;
          all_threads = omega arith;
          busy = refl;
          ended = λ t. cc;
          finished = λ _. refl;
          once = refl;
        },
        refl,
      )

  -- A pool with `n` threads and a queue size that an `int` holds, on every schedule of them, of the threads that
  -- hand in tasks and of one that stops the pool: no assertion fails, `busyThreads` is the number of threads with a
  -- task in hand and at most `n`, and no task is called more often than it went into the queue.
  pub run_all-at_most_once :
      (c : Callbacks) (size n : ℕ) (es : List Event)
      → 0 < n
      → size < 2 ^ 31
      → (p : ThreadPool) × ((started c size n >>= λ q. run_all q es) ≡ some p)
        × (p.busy_threads ≡ length p.busy)
        × (p.busy_threads ≤ p.threads)
        × (count (is_call k) p.calls ≤ count (is_task k) p.queue.stored)
  run_all-at_most_once c size n es h w =
      let (b, s) = new_queue-some size w in
      let (q, r, v, _) = started-IsPool c size n b h s in
      let (p, r', v') = run_all-GoesOn q es v in
      (
        p,
        rw r r',
        v'.busy,
        omega (arith, v'.busy, v'.all_threads),
        omega (arith, v'.once, count-stored k p.queue v'.order),
      )
