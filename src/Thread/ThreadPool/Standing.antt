-- ===== src/Thread/ThreadPool/Standing.antt =====
-- src/thread/ThreadPool.cpp: where the threads of the pool stand, when the queue takes a step.
use mathlib.Core.List.{reverse, reverse-cons}
use hohnor.Prelude.{
  ℕ, zero, suc, ◌+◌, ◌<◌, ◌≡◌, refl, sym, ap, ◌∙◌, Bool, true, false, List, [], ◌∷◌, ◌++◌, Option,
  none, some, length, ◌==◌, arith, subst, some-inj,
}
use hohnor.Common.BinaryHeap.Items.{count, one_if, count-append}
use hohnor.Common.CircularBuffer.Contents.{contents}
use hohnor.Thread.BoundedBlockingQueue
use hohnor.Thread.BoundedBlockingQueue.{System, Take, put_call, put_again, take_call, give_up_call}
use hohnor.Thread.BoundedBlockingQueue.Waiters.{IsLive, step-IsLive}
use hohnor.Thread.BoundedBlockingQueue.History.{InOrder, step-KeepsOrder}
use hohnor.Thread.BoundedBlockingQueue.Effects.{Aside, GoesAside, Passed, Passes}
use hohnor.Thread.ThreadPool.{
  Task, Call, pre_task, post_task, task, ThreadPool, Callbacks, called, pick, call_task, on_queue,
  pass,
}

abbrev pub is_task : ℕ → Task → Bool
is_task k none = false
is_task k (some n) = n == k

abbrev pub is_call : ℕ → Call → Bool
is_call k (task n) = n == k
is_call k _ = false

count-join {ℓ} :
    {A : Type ℓ} (f : A → Bool) (xs ys : List A) → count f (xs ++ ys) ≡ count f xs + count f ys
count-join f [] ys = omega arith
count-join f (x ∷ xs) ys = omega (arith, count-join f xs ys)

count-reverse {ℓ} : {A : Type ℓ} (f : A → Bool) (xs : List A) → count f (reverse xs) ≡ count f xs
count-reverse f [] = refl
count-reverse f (x ∷ xs) =
    rw (reverse-cons x xs) (omega (arith, count-append f (reverse xs) x, count-reverse f xs))

module _ (k : ℕ) where
  pub count-stored :
      (s : System Task)
      → InOrder none s
      → count (is_task k) s.stored
        ≡ count (is_task k) s.taken + count (is_task k) (contents none s.queue)
  count-stored s o = omega (
    arith,
    count-reverse (is_task k) s.stored,
    count-reverse (is_task k) s.taken,
    ap (count (is_task k)) o,
    count-join (is_task k) (reverse s.taken) (contents none s.queue),
  )

  -- The calls of task `k` and the tasks `k` in hand, are those that were taken; each thread stands
  -- somewhere.
  pub record IsPool (p : ThreadPool) : Type 0 where
    pub started : 0 < p.threads
    pub live : IsLive p.queue
    pub order : InOrder none p.queue
    pub all_threads :
        p.starting
          + p.testing
          + p.taking
          + (p.queue.waiting_take + p.queue.ready_take)
          + length p.busy
          + p.finished
        ≡ p.threads
    pub busy : p.busy_threads ≡ length p.busy
    pub ended : p.queue.end_ ≡ true → p.running ≡ false
    pub finished : p.running ≡ true → p.finished ≡ 0
    pub once :
        count (is_call k) p.calls + count (is_task k) p.busy ≡ count (is_task k) p.queue.taken

  pub count-called :
      (on : Bool) (c : Call) (calls : List Call)
      → is_call k c ≡ false
      → count (is_call k) (called on c calls) ≡ count (is_call k) calls
  count-called true c calls e = count-append (is_call k) calls c ∙ omega (arith, ap one_if e)
  count-called false c calls e = refl

  pub count-call_task :
      (c : Callbacks) (t : Task) (calls : List Call)
      → count (is_call k) (call_task c t calls) ≡ count (is_call k) calls + one_if (is_task k t)
  count-call_task c none calls = omega arith
  count-call_task c (some n) calls = omega (
    arith,
    count-called c.post_task_callback post_task
        (called c.pre_task_callback pre_task calls ++ task n ∷ []) refl,
    count-append (is_call k) (called c.pre_task_callback pre_task calls) (task n),
    count-called c.pre_task_callback pre_task calls refl,
  )

  -- The place and what is there.
  abbrev pub Picked : List Task → Option (Task × List Task) → Type 0
  Picked xs none = Unit
  Picked xs (some (t, others)) =
      (length xs ≡ length others + 1)
      × (count (is_task k) xs ≡ one_if (is_task k t) + count (is_task k) others)

  pub pick-Picked : (i : ℕ) (xs : List Task) → Picked xs (pick i xs)
  pick-Picked i [] = tt
  pick-Picked zero (x ∷ xs) = (omega arith, refl)
  pick-Picked (suc i) (x ∷ xs) = under (pick i xs) (pick-Picked i xs)
    where
      under :
          (r : Option (Task × List Task))
          → Picked xs r
          → Picked (x ∷ xs) (elim r [ none ↦ none | some (y, ys) ↦ some (y, x ∷ ys) ])
      under none h = tt
      under (some (y, ys)) h = (omega arith, omega arith)

  abbrev pub GoesOn : Option ThreadPool → Type 0
  GoesOn r = (p : ThreadPool) × (r ≡ some p) × IsPool p

  pub on_queue-GoesOn :
      (e : BoundedBlockingQueue.Event Task) (p : ThreadPool)
      → IsPool p
      → GoesAside p.queue (BoundedBlockingQueue.step none p.queue e)
      → GoesOn (on_queue e p)
  on_queue-GoesOn e p v a =
      let (t, r, l) = step-IsLive none p.queue e v.live in
      let o : InOrder none t = rw r at (step-KeepsOrder none p.queue e v.live v.order) in
      let (b, f) : Aside p.queue t × (t.end_ ≡ p.queue.end_) = rw r at a in
      (
        record p { queue = t },
        rw r refl,
        record {
          started = v.started;
          live = l;
          order = o;
          all_threads = omega (arith, v.all_threads, b.takers);
          busy = v.busy;
          ended = λ h. v.ended (sym f ∙ h);
          finished = v.finished;
          once = v.once ∙ ap (count (is_task k)) (sym b.taken);
        },
      )

  pub give_up-GoesOn :
      (p : ThreadPool) → IsPool p → p.running ≡ false → GoesOn (on_queue give_up_call p)
  unfolding BoundedBlockingQueue.step
  give_up-GoesOn p v f =
      let (t, r, l) = step-IsLive none p.queue give_up_call v.live in
      (
        record p { queue = BoundedBlockingQueue.give_up p.queue },
        refl,
        record {
          started = v.started;
          live = subst IsLive (some-inj _ _ (sym r)) l;
          order = v.order;
          all_threads = omega (arith, v.all_threads);
          busy = v.busy;
          ended = λ _. f;
          finished = v.finished;
          once = v.once;
        },
      )

  -- A thread that is not counted any more makes a pass of `take`; `s` is the queue without it.
  pub pass-GoesOn :
      (e : BoundedBlockingQueue.Event Task) (p : ThreadPool) (s : System Task)
      → 0 < p.threads
      → IsLive p.queue
      → InOrder none p.queue
      → Passes none s
          (BoundedBlockingQueue.take none p.queue.base)
          (BoundedBlockingQueue.step none p.queue e)
      → (s.end_ ≡ p.queue.end_) × (s.taken ≡ p.queue.taken)
      → p.starting
          + p.testing
          + p.taking
          + (s.waiting_take + s.ready_take)
          + length p.busy
          + p.finished
          + 1
        ≡ p.threads
      → p.busy_threads ≡ length p.busy
      → (p.queue.end_ ≡ true → p.running ≡ false)
      → (p.running ≡ true → p.finished ≡ 0)
      → count (is_call k) p.calls + count (is_task k) p.busy ≡ count (is_task k) p.queue.taken
      → GoesOn (pass e p)
  pass-GoesOn e p s started live order passes (same_end, same_taken) all busy ended finished once =
      let (t, r, l) = step-IsLive none p.queue e live in
      let o : InOrder none t = rw r at (step-KeepsOrder none p.queue e live order) in
      by_case t r l o (rw r at passes)
    where
      taking : Take Task
      taking = BoundedBlockingQueue.take none p.queue.base

      by_case :
          (t : System Task)
          → BoundedBlockingQueue.step none p.queue e ≡ some t
          → IsLive t
          → InOrder none t
          → Passed none s taking t
          → GoesOn (pass e p)
      by_case t r l o (Passed.sleeps w n g f) = (
        record p { queue = t },
        rw (r, w) refl,
        record {
          started = started;
          live = l;
          order = o;
          all_threads = omega (arith, all, n);
          busy = busy;
          ended = λ h. ended (sym (f ∙ same_end) ∙ h);
          finished = finished;
          once = once ∙ ap (count (is_task k)) (sym (g ∙ same_taken));
        },
      )
      by_case t r l o (Passed.gets_default w n g f) = (
        record p { queue = t; busy = none ∷ p.busy; busy_threads = p.busy_threads + 1 },
        rw (r, w) refl,
        record {
          started = started;
          live = l;
          order = o;
          all_threads = omega (arith, all, n);
          busy = omega (arith, busy);
          ended = λ h. ended (sym (f ∙ same_end) ∙ h);
          finished = finished;
          once = omega (arith, once, ap (count (is_task k)) (g ∙ same_taken));
        },
      )
      by_case t r l o (Passed.gets x b w n g f) = (
        record p { queue = t; busy = x ∷ p.busy; busy_threads = p.busy_threads + 1 },
        rw (r, w) refl,
        record {
          started = started;
          live = l;
          order = o;
          all_threads = omega (arith, all, n);
          busy = omega (arith, busy);
          ended = λ h. ended (sym (f ∙ same_end) ∙ h);
          finished = finished;
          once = omega (arith, once, ap (count (is_task k)) (g ∙ ap (◌∷◌ x) same_taken));
        },
      )
