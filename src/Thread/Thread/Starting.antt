-- ===== src/Thread/Thread/Starting.antt =====
-- src/thread/Thread.cpp: `start` and `join` on every schedule.
use hohnor.Prelude.{
  ◌<◌, ◌≤◌, ◌≡◌, refl, ap, ◌∙◌, true, List, [], ◌∷◌, some, arith, inl, inr, subst, ◌≢◌,
}
use hohnor.Thread.CountDownLatch
use hohnor.Thread.CountDownLatch.{CountDownLatch, count_down, wait_call, wait_again, spurious}
use hohnor.Thread.Thread.{
  outside, in_join, Starter, not_made, begun, has_tid, counted, finished, Thread, create, Event,
  start_call, join_call, destroy_call, owner_goes, wakes, thread_goes, step, run,
}
use hohnor.Thread.Thread.Standing.{Stands, calls_of, Goes, stays, thread_step-Goes}
use hohnor.Thread.Thread.Latched.{owner_step-Goes}
use hohnor.Thread.Thread.Calls.{start-Goes, join-Goes, destroy-Goes, wakes-Goes}

step-Goes : (e : Event) (t : Thread) → Stands t.owner t.starter t → Goes (step e t)
unfolding step
step-Goes (start_call made) t v = start-Goes made t.owner t.starter t v
step-Goes join_call t v = join-Goes t.owner t.starter t v
step-Goes destroy_call t v = destroy-Goes t.owner t.starter t v
step-Goes owner_goes t v = owner_step-Goes t.owner t.starter t v
step-Goes wakes t v = wakes-Goes t.owner t.starter t v
step-Goes (thread_goes n) t v = thread_step-Goes n t.owner t.starter t v

run-Goes : (es : List Event) (t : Thread) → Stands t.owner t.starter t → Goes (run es t)
unfolding run
run-Goes [] t v = stays t.owner t.starter t v
run-Goes (e ∷ es) t v =
    let (t', r, w) = step-Goes e t v in let (t'', r', w') = run-Goes es t' w in (t'', rw r r', w')

create-Stands : Stands outside not_made create
unfolding create CountDownLatch.create
create-Stands = record {
  owner = refl;
  starter = refl;
  started = refl;
  joined = λ e. cc e;
  tid = tt;
  calls = refl;
  count = refl;
  parked = refl;
}

outside-HasTid : (s : Starter) (t : Thread) → t.started ≡ true → Stands outside s t → 0 < t.tid
outside-HasTid not_made t e v = cc (e, v.started)
outside-HasTid begun t e v = absurd v.parked
outside-HasTid has_tid t e v = v.tid
outside-HasTid counted t e v = v.tid
outside-HasTid finished t e v = v.tid

calls_of-le : (s : Starter) → calls_of s ≤ 1
calls_of-le not_made = omega arith
calls_of-le begun = omega arith
calls_of-le has_tid = omega arith
calls_of-le counted = omega arith
calls_of-le finished = omega arith

-- On every schedule of a thread and its owner, spurious wakeups included, where the owner starts it when it is
-- not started, joins it once, and destroys it outside of these calls: no assertion fails, and the thread does not
-- use the object once it is destroyed; the function is called once at most; a thread that was started has its
-- id when `start` has returned; and when `join` has returned the function has been called.
pub run-starts :
    (es : List Event)
    → (t : Thread) × (run es create ≡ some t)
      × (t.calls ≤ 1)
      × (t.owner ≡ outside → t.started ≡ true → 0 < t.tid)
      × (t.joined ≡ true → t.owner ≢ in_join → t.calls ≡ 1)
unfolding create
run-starts es =
    let (t, r, v) = run-Goes es create create-Stands in
    (
      t,
      r,
      omega (arith, v.calls, calls_of-le t.starter),
      λ o e. outside-HasTid t.starter t e (subst (λ o. Stands o t.starter t) o v),
      λ j n. elim (v.joined j) [ inl i ↦ absurd (n i) | inr f ↦ v.calls ∙ ap calls_of f ],
    )
