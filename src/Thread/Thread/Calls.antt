-- ===== src/Thread/Thread/Calls.antt =====
-- src/thread/Thread.cpp: the calls of the owner.
use hohnor.Prelude.{
  ◌≡◌, refl, Bool, true, false, not, ◌&&◌, some, if◌then◌else◌, inl, inr, Bool-cases,
}
use hohnor.Thread.CountDownLatch
use hohnor.Thread.CountDownLatch.{CountDownLatch, count_down, wait_call, wait_again, spurious}
use hohnor.Thread.Thread.{
  Owner, outside, at_wait, in_wait, in_join, gone, Starter, not_made, begun, has_tid, counted,
  finished, Thread, start, join, is_outside,
}
use hohnor.Thread.Thread.Standing.{
  Phase, Stands, phase_of, Parked, Goes, stays, goes, unmade, shut, opened,
}
use hohnor.Thread.Thread.Latched.{wakes-Waits}

-- The owner goes from outside to `o`.
pub leaves :
    (o : Owner) (s : Starter) (t : Thread)
    → Stands outside s t
    → Parked o (phase_of s) t.latch.waiting t.latch.ready t.latch.passed
    → Stands o s (record t { owner = o })
leaves o s t v p = record {
  owner = refl;
  starter = v.starter;
  started = v.started;
  joined = λ e. elim (v.joined e) [ inl j ↦ cc j | inr f ↦ inr f ];
  tid = v.tid;
  calls = v.calls;
  count = v.count;
  parked = p;
}

pub start-Goes :
    (made : Bool) (o : Owner) (s : Starter) (t : Thread)
    → Stands o s t
    → Goes (if is_outside o && not t.started then start made t else some t)
unfolding start
start-Goes made at_wait s t v = stays at_wait s t v
start-Goes made in_wait s t v = stays in_wait s t v
start-Goes made in_join s t v = stays in_join s t v
start-Goes made gone s t v = stays gone s t v
start-Goes true outside not_made t v =
    goes at_wait begun _ (record t { started = true; owner = at_wait; starter = begun })
      (rw v.started refl)
      (record {
        owner = refl;
        starter = refl;
        started = refl;
        joined = λ e. elim (v.joined e) [ inl j ↦ cc j | inr f ↦ cc f ];
        tid = tt;
        calls = v.calls;
        count = v.count;
        parked = v.parked;
      })
start-Goes false outside not_made t v = goes outside not_made _ t (rw v.started refl) v
start-Goes made outside begun t v = absurd v.parked
start-Goes made outside has_tid t v = absurd v.parked
start-Goes made outside counted t v = goes outside counted _ t (rw v.started refl) v
start-Goes made outside finished t v = goes outside finished _ t (rw v.started refl) v

pub joins :
    (s : Starter) (t : Thread)
    → t.started ≡ true
    → Parked in_join (phase_of s) t.latch.waiting t.latch.ready t.latch.passed
    → Stands outside s t
    → Goes (if t.started && not t.joined then join t else some t)
unfolding join
joins s t b p v = elim (Bool-cases t.joined) [
  | inl y ↦ goes outside s _ t (rw (b, y) refl) v
  | inr n ↦
      goes in_join s _ (record t { joined = true; owner = in_join }) (rw (join, b, n) refl)
        (record {
          owner = refl;
          starter = v.starter;
          started = v.started;
          joined = λ e. inl refl;
          tid = v.tid;
          calls = v.calls;
          count = v.count;
          parked = p;
        })
]

pub join-Goes :
    (o : Owner) (s : Starter) (t : Thread)
    → Stands o s t
    → Goes (if is_outside o && (t.started && not t.joined) then join t else some t)
join-Goes at_wait s t v = stays at_wait s t v
join-Goes in_wait s t v = stays in_wait s t v
join-Goes in_join s t v = stays in_join s t v
join-Goes gone s t v = stays gone s t v
join-Goes outside not_made t v = goes outside not_made _ t (rw v.started refl) v
join-Goes outside begun t v = absurd v.parked
join-Goes outside has_tid t v = absurd v.parked
join-Goes outside counted t v = joins counted t v.started v.parked v
join-Goes outside finished t v = joins finished t v.started v.parked v

pub destroy-Goes :
    (o : Owner) (s : Starter) (t : Thread)
    → Stands o s t
    → Goes (if is_outside o then some (record t { owner = gone }) else some t)
destroy-Goes at_wait s t v = stays at_wait s t v
destroy-Goes in_wait s t v = stays in_wait s t v
destroy-Goes in_join s t v = stays in_join s t v
destroy-Goes gone s t v = stays gone s t v
destroy-Goes outside s t v =
    goes gone s _ _ refl (leaves gone s t v (to_gone (phase_of s) v.parked))
  where
    to_gone :
        (f : Phase)
        → Parked outside f t.latch.waiting t.latch.ready t.latch.passed
        → Parked gone f t.latch.waiting t.latch.ready t.latch.passed
    to_gone unmade h = h
    to_gone shut h = h
    to_gone opened h = h

pub wakes-Goes :
    (o : Owner) (s : Starter) (t : Thread)
    → Stands o s t
    → Goes (some (record t { latch = CountDownLatch.step t.latch spurious }))
wakes-Goes o s t v =
    goes o s _ (record t { latch = CountDownLatch.step t.latch spurious }) refl
      (record {
        owner = v.owner;
        starter = v.starter;
        started = v.started;
        joined = v.joined;
        tid = v.tid;
        calls = v.calls;
        count = (wakes-Waits o (phase_of s) t.latch (v.count, v.parked)).0;
        parked = (wakes-Waits o (phase_of s) t.latch (v.count, v.parked)).1;
      })
