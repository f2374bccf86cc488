-- ===== src/Thread/Thread/Latched.antt =====
-- src/thread/Thread.cpp: the steps of the owner in `start` and `join`.
use hohnor.Prelude.{
  ℕ, ◌+◌, ◌<◌, ◌≡◌, refl, sym, true, false, ltb, arith, inl, inr, subst, Bool-cases, ◌≢◌, ◌-◌,
  ltb→lt, lt→ltb,
}
use hohnor.Prelude.Int.{pos}
use hohnor.Thread.CountDownLatch
use hohnor.Thread.CountDownLatch.{CountDownLatch, count_down, wait_call, wait_again, spurious}
use hohnor.Thread.Thread.{
  Owner, outside, at_wait, in_wait, in_join, gone, Starter, not_made, begun, has_tid, counted,
  finished, Thread, start_returns, owner_step,
}
use hohnor.Thread.Thread.Standing.{
  Phase, Stands, phase_of, count_of, Parked, Goes, stays, goes, unmade, shut, opened,
}

-- A step of the owner on the latch, which leaves the count.
abbrev pub Waits : Owner → Phase → CountDownLatch → Type 0
Waits o f l = (l.count ≡ pos (count_of f)) × Parked o f l.waiting l.ready l.passed

pub arrives-Waits :
    (f : Phase) (l : CountDownLatch)
    → Waits at_wait f l
    → Waits in_wait f (CountDownLatch.step l wait_call)
unfolding CountDownLatch.step CountDownLatch.wait
arrives-Waits unmade l (e, h) = absurd h
arrives-Waits shut l (e, h) = rw e (refl, (omega (arith, h), omega (arith, h)))
arrives-Waits opened l (e, h) = rw e (refl, (omega (arith, h), omega (arith, h)))

pub again-Waits :
    (f : Phase) (l : CountDownLatch)
    → ltb 0 l.passed ≡ false
    → Waits in_wait f l
    → Waits in_wait f (CountDownLatch.step l wait_again)
unfolding CountDownLatch.step CountDownLatch.wait
again-Waits unmade l z (e, h) = absurd h
again-Waits shut l z (e, (h, p)) = elim (Bool-cases (ltb 0 l.ready)) [
  | inl y ↦ rw (y, e) (refl, (ground arith, p))
  | inr n ↦ rw n (e, (h, p))
]
again-Waits opened l z (e, (h, p)) =
    let y : ltb 0 l.ready ≡ true = ground arith in rw (y, e) (refl, (h, ground arith))

pub wakes-Waits :
    (o : Owner) (f : Phase) (l : CountDownLatch)
    → Waits o f l
    → Waits o f (CountDownLatch.step l spurious)
unfolding CountDownLatch.step
wakes-Waits o f l (e, h) = elim (Bool-cases (ltb 0 l.waiting)) [
  | inl y ↦ rw y (e, moved o f l.waiting l.ready l.passed (ltb→lt _ _ y) h)
  | inr n ↦ rw n (e, h)
]
  where
    moved :
        (o : Owner) (f : Phase) (w r p : ℕ)
        → 0 < w
        → Parked o f w r p
        → Parked o f (w - 1) (r + 1) p
    moved outside unmade w r p x h = omega (arith, x, h)
    moved outside shut w r p x h = h
    moved outside opened w r p x (h, z) = absurd (omega (arith, x, h))
    moved at_wait unmade w r p x h = h
    moved at_wait shut w r p x h = absurd (omega (arith, x, h))
    moved at_wait opened w r p x h = absurd (omega (arith, x, h))
    moved in_wait unmade w r p x h = h
    moved in_wait shut w r p x (h, z) = (omega (arith, x, h), z)
    moved in_wait opened w r p x (h, z) = absurd (omega (arith, x, h))
    moved in_join unmade w r p x h = h
    moved in_join shut w r p x h = h
    moved in_join opened w r p x (h, z) = absurd (omega (arith, x, h))
    moved gone unmade w r p x h = absurd (omega (arith, x, h))
    moved gone shut w r p x h = h
    moved gone opened w r p x (h, z) = absurd (omega (arith, x, h))

-- The latch changes, and the owner goes on.
pub latched :
    (o o' : Owner) (s : Starter) (t : Thread) (l : CountDownLatch)
    → o ≢ in_join
    → Stands o s t
    → Waits o' (phase_of s) l
    → Stands o' s (record t { latch = l; owner = o' })
latched o o' s t l n v (c, p) = record {
  owner = refl;
  starter = v.starter;
  started = v.started;
  joined = λ e. elim (v.joined e) [ inl j ↦ absurd (n j) | inr f ↦ inr f ];
  tid = v.tid;
  calls = v.calls;
  count = c;
  parked = p;
}

pub waits_again :
    (s : Starter) (t : Thread)
    → ltb 0 t.latch.passed ≡ false
    → Stands in_wait s t
    → Goes (owner_step in_wait s t)
waits_again s t z v =
    let l = CountDownLatch.step t.latch wait_again in
    goes in_wait s _ (record t { latch = l }) (rw z refl)
      (record {
        owner = v.owner;
        starter = v.starter;
        started = v.started;
        joined = v.joined;
        tid = v.tid;
        calls = v.calls;
        count = (again-Waits (phase_of s) t.latch z (v.count, v.parked)).0;
        parked = (again-Waits (phase_of s) t.latch z (v.count, v.parked)).1;
      })

-- The wait has returned, since the latch is counted down; so the id is there.
pub wait_returns :
    (s : Starter) (t : Thread)
    → phase_of s ≡ opened
    → 0 < t.tid
    → Parked in_wait opened t.latch.waiting t.latch.ready t.latch.passed
    → Stands in_wait s t
    → Goes (owner_step in_wait s t)
unfolding start_returns
wait_returns s t f n (w, p) v = elim (Bool-cases (ltb 0 t.latch.passed)) [
  | inr z ↦ waits_again s t z v
  | inl y ↦
      goes outside s _ (record t { owner = outside }) (rw (y, start_returns, lt→ltb _ _ n) refl)
        (record {
          owner = refl;
          starter = v.starter;
          started = v.started;
          joined = λ e. elim (v.joined e) [ inl j ↦ cc j | inr f ↦ inr f ];
          tid = v.tid;
          calls = v.calls;
          count = v.count;
          parked =
              subst (λ f. Parked outside f t.latch.waiting t.latch.ready t.latch.passed) (sym f)
                (omega (arith, w, p, ltb→lt _ _ y), omega (arith, w, p, ltb→lt _ _ y));
        })
]

pub owner_step-Goes :
    (o : Owner) (s : Starter) (t : Thread) → Stands o s t → Goes (owner_step o s t)
owner_step-Goes outside s t v = stays outside s t v
owner_step-Goes gone s t v = stays gone s t v
owner_step-Goes at_wait s t v = goes in_wait s _ _ refl (
    latched at_wait in_wait s t _ (λ e. cc e) v
      (arrives-Waits (phase_of s) t.latch (v.count, v.parked)))
owner_step-Goes in_wait not_made t v = absurd v.parked
owner_step-Goes in_wait begun t v = waits_again begun t (ground (arith, v.parked.1)) v
owner_step-Goes in_wait has_tid t v = waits_again has_tid t (ground (arith, v.parked.1)) v
owner_step-Goes in_wait counted t v = wait_returns counted t refl v.tid v.parked v
owner_step-Goes in_wait finished t v = wait_returns finished t refl v.tid v.parked v
owner_step-Goes in_join not_made t v = stays in_join not_made t v
owner_step-Goes in_join begun t v = stays in_join begun t v
owner_step-Goes in_join has_tid t v = stays in_join has_tid t v
owner_step-Goes in_join counted t v = stays in_join counted t v
owner_step-Goes in_join finished t v =
    goes outside finished _ (record t { owner = outside }) refl
      (record {
        owner = refl;
        starter = v.starter;
        started = v.started;
        joined = λ e. inr refl;
        tid = v.tid;
        calls = v.calls;
        count = v.count;
        parked = v.parked;
      })
