-- ===== src/Thread/ThreadPool/Quiet.antt =====
-- src/thread/ThreadPool.cpp: a pool at rest has done its work.
use hohnor.Prelude.{
  ℕ, ◌<◌, ◌≡◌, refl, sym, ap, ◌∙◌, ◌⊎◌, inl, inr, true, false, List, [], ◌∷◌, none, some, length,
  arith, Bool-cases, ◌>>=◌, some-inj, subst, Option-cases, none_not_some,
}
use hohnor.Common.BinaryHeap.Items.{count}
use hohnor.Common.CircularBuffer
use hohnor.Common.CircularBuffer.Contents.{contents, size-contents}
use hohnor.Thread.ThreadPool.{Callbacks, ThreadPool, Event, started, run_all, new_queue}
use hohnor.Thread.ThreadPool.Standing.{is_task, is_call, IsPool, count-stored}
use hohnor.Thread.ThreadPool.Once.{started-IsPool, run_all-GoesOn, new_queue-some}

-- No thread of the pool can go on: each one sleeps in `take` or has finished. No thread that was waiting for
-- room is woken and still to go on, and `stop` is not between its two parts.
pub record IsQuiet (p : ThreadPool) : Type 0 where
  pub starting : p.starting ≡ 0
  pub testing : p.testing ≡ 0
  pub taking : p.taking ≡ 0
  pub ready : p.queue.ready_take ≡ 0
  pub ready_put : p.queue.ready_put ≡ 0
  pub busy : p.busy ≡ []
  pub stopped : p.running ≡ false → p.queue.end_ ≡ true

-- Everything that was handed in was done, and all wait for more; or `stop` can join every thread.
abbrev pub AtRest : ℕ → ThreadPool → Type 0
AtRest k p =
    ((p.running ≡ true)
      × (p.queue.waiting_take ≡ p.threads)
      × (p.queue.waiting_put ≡ 0)
      × (CircularBuffer.size p.queue.queue ≡ 0)
      × (count (is_call k) p.calls ≡ count (is_task k) p.queue.stored))
    ⊎ ((p.running ≡ false) × (p.finished ≡ p.threads))

nil_of_length {ℓ} : {A : Type ℓ} (xs : List A) → length xs ≡ 0 → xs ≡ []
nil_of_length [] e = refl
nil_of_length (x ∷ xs) e = absurd (omega arith)

started-none : (c : Callbacks) (size n : ℕ) → new_queue size ≡ none → started c size n ≡ none
unfolding started
started-none c size n e = let (q, r) = new_queue-some 0 42 (omega arith) in rw (r, e) refl

module _ (k : ℕ) where
  quiet-AtRest : (p : ThreadPool) → IsPool k p → IsQuiet p → AtRest k p
  quiet-AtRest p v q = elim (Bool-cases p.running) [
    | inl on ↦
        let sleeping : p.queue.waiting_take ≡ p.threads = omega (
          arith,
          v.all_threads,
          v.finished on,
          q.starting,
          q.testing,
          q.taking,
          q.ready,
          ap length q.busy,
        ) in
        let none_left : CircularBuffer.size p.queue.queue ≡ 0 =
          omega (arith, v.live.takers (omega (arith, v.started, sleeping)), q.ready) in
        inl (
          on,
          sleeping,
          ground (arith, v.live.putters, v.live.valid, none_left, q.ready_put),
          none_left,
          omega (
            arith,
            v.once,
            ap (count (is_task k)) q.busy,
            count-stored k p.queue v.order,
            ap (count (is_task k)) (no_contents p none_left v),
          ),
        )
    | inr off ↦ inr (
      off,
      omega (
        arith,
        v.all_threads,
        q.starting,
        q.testing,
        q.taking,
        q.ready,
        ap length q.busy,
        (v.live.ended (q.stopped off)).0,
      ),
    )
  ]
    where
      no_contents :
          (p : ThreadPool)
          → CircularBuffer.size p.queue.queue ≡ 0
          → IsPool k p
          → contents none p.queue.queue ≡ []
      no_contents p e v =
          nil_of_length (contents none p.queue.queue)
            (sym (size-contents none p.queue.queue v.live.valid) ∙ e)

  -- A pool with `n` threads, after any schedule: if no thread of it can go on, then either it runs, its threads
  -- all sleep, nobody waits for room, and every task was called as often as it went into the queue; or it was
  -- stopped, and every thread has finished, so that the joins of `stop` return.
  pub run_all-rests :
      (c : Callbacks) (size n : ℕ) (es : List Event) (p : ThreadPool)
      → 0 < n
      → (started c size n >>= λ q. run_all q es) ≡ some p
      → IsQuiet p
      → AtRest k p
  run_all-rests c size n es p h r quiet = elim (Option-cases (new_queue size)) [
    | inl e ↦ absurd (none_not_some (rw (started-none c size n e) at r))
    | inr (b, e) ↦
        let (q, r₀, v, _) = started-IsPool k c size n b h e in
        let (p', r', v') = run_all-GoesOn k q es v in
        quiet-AtRest p (subst (IsPool k) (some-inj _ _ (sym (rw r₀ r') ∙ r)) v') quiet
  ]
