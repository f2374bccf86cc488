-- ===== src/Log/AsyncLogging/Stopping.antt =====
-- The destructor of src/log/AsyncLogging.cpp: its join returns, and what it leaves unwritten.
use hohnor.Prelude.{
  ℕ, ◌+◌, ◌≤◌, ◌<◌, ◌≡◌, refl, true, List, [], ◌∷◌, length, length-append, ltb, arith, if_elim, max,
}
use hohnor.Log.AsyncLogging.{
  Buffer, Phase, testing, taking, in_take, finished, holds, AsyncLog, create, add_log, set_stop,
  flush_log, last_flush, in_hand, thread_step, Event, adds, stops, flushes_last, thread_goes,
  spurious, step, run, output_of,
}
use hohnor.Log.AsyncLogging.Written.{IsAsyncLog, step-IsAsyncLog, run-IsAsyncLog, create-IsAsyncLog}

-- The steps that the thread has to make at most, once `stop_` is set and a buffer is there.
abbrev pub steps_left : Phase → ℕ
steps_left taking = 3
steps_left in_take = 3
steps_left (holds b) = 2
steps_left testing = 1
steps_left finished = 0

abbrev pub thread_steps : List Event → ℕ
thread_steps [] = 0
thread_steps (thread_goes ∷ es) = thread_steps es + 1
thread_steps (adds b ∷ es) = thread_steps es
thread_steps (stops ∷ es) = thread_steps es
thread_steps (flushes_last ∷ es) = thread_steps es
thread_steps (spurious ∷ es) = thread_steps es

thread_steps-cons :
    (e : Event) (es : List Event) → thread_steps (e ∷ es) ≡ thread_steps (e ∷ []) + thread_steps es
thread_steps-cons thread_goes es = omega arith
thread_steps-cons (adds b) es = omega arith
thread_steps-cons stops es = omega arith
thread_steps-cons flushes_last es = omega arith
thread_steps-cons spurious es = omega arith

in_hand-left : (bs : List Buffer) → 0 < length bs → steps_left (in_hand bs) ≡ 2
in_hand-left [] h = absurd (omega arith)
in_hand-left (b ∷ bs) h = refl

thread_step-left :
    (p : Phase) (a : AsyncLog)
    → IsAsyncLog (record a { phase = p })
    → a.flushed ≡ true
    → (steps_left (thread_step p (record a { phase = p })).phase + 1 ≤ max 1 (steps_left p))
      × ((thread_step p (record a { phase = p })).flushed ≡ true)
unfolding thread_step
thread_step-left testing a v f = rw (v.stopped f) (omega arith, f)
thread_step-left taking a v f = (omega (arith, in_hand-left a.queue.queue (v.last f refl)), f)
thread_step-left in_take a v f =
    let woken : ltb 0 a.queue.ready ≡ true =
      ground (arith, v.thread, v.delivers.enough, v.last f refl) in
    rw woken (omega (arith, in_hand-left a.queue.queue (v.last f refl)), f)
thread_step-left (holds b) a v f = (omega arith, f)
thread_step-left finished a v f = (omega arith, f)

-- Only the thread's own steps count.
step-left :
    (a : AsyncLog) (e : Event)
    → IsAsyncLog a
    → a.flushed ≡ true
    → (steps_left (step a e).phase + thread_steps (e ∷ [])
        ≤ max (thread_steps (e ∷ [])) (steps_left a.phase))
      × ((step a e).flushed ≡ true)
unfolding step add_log set_stop last_flush flush_log
step-left a (adds b) v f = (omega arith, f)
step-left a stops v f = (omega arith, f)
step-left a flushes_last v f = rw (v.stopped f) (omega arith, refl)
step-left a thread_goes v f = thread_step-left a.phase a v f
step-left a spurious v f = (omega arith, f)

run-left :
    (a : AsyncLog) (es : List Event)
    → IsAsyncLog a
    → a.flushed ≡ true
    → steps_left a.phase ≤ thread_steps es
    → steps_left (run a es).phase ≡ 0
unfolding run
run-left a [] v f h = omega arith
run-left a (e ∷ es) v f h =
    let (l, g) = step-left a e v f in
    run-left (step a e) es (step-IsAsyncLog a e v) g (omega (arith, l, thread_steps-cons e es))

steps_left-most : (p : Phase) → steps_left p ≤ 3
steps_left-most testing = omega arith
steps_left-most taking = omega arith
steps_left-most in_take = omega arith
steps_left-most (holds b) = omega arith
steps_left-most finished = omega arith

steps_left-finished : (p : Phase) → steps_left p ≡ 0 → p ≡ finished
steps_left-finished testing h = absurd (omega arith)
steps_left-finished taking h = absurd (omega arith)
steps_left-finished in_take h = absurd (omega arith)
steps_left-finished (holds b) h = absurd (omega arith)
steps_left-finished finished h = refl

-- After any schedule that ends with the destructor's flush, three steps of the log thread, whatever the other
-- threads do in between, bring it to its end, so that the join returns: it never sleeps on.
pub run-finishes :
    (es fs : List Event)
    → (run create es).flushed ≡ true
    → 3 ≤ thread_steps fs
    → (run (run create es) fs).phase ≡ finished
run-finishes es fs f h = steps_left-finished _ (
    run-left (run create es) fs (run-IsAsyncLog create es create-IsAsyncLog) f
      (omega (arith, steps_left-most (run create es).phase)))

-- The outputs that the thread can still make once `stop_` is set.
abbrev writes_left : Phase → ℕ
writes_left taking = 1
writes_left in_take = 1
writes_left (holds b) = 1
writes_left testing = 0
writes_left finished = 0

in_hand-writes : (bs : List Buffer) → writes_left (in_hand bs) ≡ 1
in_hand-writes [] = refl
in_hand-writes (b ∷ bs) = refl

-- A step to `r` that makes no more outputs than that.
abbrev Drops : AsyncLog → AsyncLog → Type 0
Drops a r =
    (length r.outputs + writes_left r.phase ≤ length a.outputs + writes_left a.phase)
    × (r.stop ≡ true)

thread_step-Drops :
    (p : Phase) (a : AsyncLog)
    → a.stop ≡ true
    → Drops (record a { phase = p }) (thread_step p (record a { phase = p }))
unfolding thread_step
thread_step-Drops testing a s = rw s (omega arith, refl)
thread_step-Drops taking a s = (omega (arith, in_hand-writes a.queue.queue), s)
thread_step-Drops in_take a s =
    if_elim (Drops (record a { phase = in_take })) (ltb 0 a.queue.ready)
      (λ _. (omega (arith, in_hand-writes a.queue.queue), s)) (λ _. (omega arith, s))
thread_step-Drops (holds b) a s = (omega (arith, length-append a.outputs (output_of b ∷ [])), s)
thread_step-Drops finished a s = (omega arith, s)

step-Drops : (a : AsyncLog) (e : Event) → a.stop ≡ true → Drops a (step a e)
unfolding step add_log set_stop last_flush flush_log
step-Drops a (adds b) s = (omega arith, s)
step-Drops a stops s = (omega arith, refl)
step-Drops a flushes_last s = rw s (omega arith, refl)
step-Drops a thread_goes s = thread_step-Drops a.phase a s
step-Drops a spurious s = (omega arith, s)

run-Drops : (a : AsyncLog) (es : List Event) → a.stop ≡ true → Drops a (run a es)
unfolding run
run-Drops a [] s = (omega arith, s)
run-Drops a (e ∷ es) s =
    let (l, t) = step-Drops a e s in
    let (l', t') = run-Drops (step a e) es t in (omega (arith, l, l'), t')

writes_left-most : (p : Phase) → writes_left p ≤ 1
writes_left-most testing = omega arith
writes_left-most taking = omega arith
writes_left-most in_take = omega arith
writes_left-most (holds b) = omega arith
writes_left-most finished = omega arith

-- After any schedule in which the destructor has set `stop_`: however many buffers wait, and whatever the threads
-- do from then on, at most one more output is ever made.
pub run-drops :
    (es fs : List Event)
    → (run create es).stop ≡ true
    → length (run (run create es) fs).outputs ≤ length (run create es).outputs + 1
run-drops es fs s =
    omega (arith, (run-Drops (run create es) fs s).0, writes_left-most (run create es).phase)
