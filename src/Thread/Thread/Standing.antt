-- ===== src/Thread/Thread/Standing.antt =====
-- src/thread/Thread.cpp: where the two stand, and the steps of the thread.
use hohnor.Prelude.{
  ℕ, ◌+◌, ◌<◌, ◌≡◌, refl, sym, ◌∙◌, Bool, true, false, Option, some, arith, ◌⊎◌, inl, inr, subst,
}
use hohnor.Prelude.Int.{pos}
use hohnor.Thread.CountDownLatch.{CountDownLatch, count_down}
use hohnor.Thread.Thread.{
  Owner, outside, at_wait, in_wait, in_join, gone, Starter, not_made, begun, has_tid, counted,
  finished, Thread, touching, thread_step,
}

-- Whether there is a thread, and whether it has counted the latch down.
pub data Phase : Type 0 where
  unmade shut opened : Phase

abbrev pub phase_of : Starter → Phase
phase_of not_made = unmade
phase_of begun = shut
phase_of has_tid = shut
phase_of counted = opened
phase_of finished = opened

abbrev pub count_of : Phase → ℕ
count_of unmade = 1
count_of shut = 1
count_of opened = 0

abbrev pub calls_of : Starter → ℕ
calls_of not_made = 0
calls_of begun = 0
calls_of has_tid = 0
calls_of counted = 0
calls_of finished = 1

abbrev pub is_made : Phase → Bool
is_made unmade = false
is_made shut = true
is_made opened = true

-- A thread that is there has its id before it counts the latch down.
abbrev pub HasTid : Starter → ℕ → Type 0
HasTid not_made n = Unit {0}
HasTid begun n = Unit {0}
HasTid has_tid n = 0 < n
HasTid counted n = 0 < n
HasTid finished n = 0 < n

-- The owner as the latch sees it, asleep in it, woken in it or past it.
abbrev pub Parked : Owner → Phase → ℕ → ℕ → ℕ → Type 0
Parked outside unmade w r p = w + r + p ≡ 0
Parked outside shut w r p = ⊥
Parked outside opened w r p = (w + r ≡ 0) × (p ≡ 1)
Parked at_wait unmade w r p = ⊥
Parked at_wait shut w r p = w + r + p ≡ 0
Parked at_wait opened w r p = w + r + p ≡ 0
Parked in_wait unmade w r p = ⊥
Parked in_wait shut w r p = (w + r ≡ 1) × (p ≡ 0)
Parked in_wait opened w r p = (w ≡ 0) × (r + p ≡ 1)
Parked in_join unmade w r p = ⊥
Parked in_join shut w r p = ⊥
Parked in_join opened w r p = (w + r ≡ 0) × (p ≡ 1)
Parked gone unmade w r p = w + r + p ≡ 0
Parked gone shut w r p = ⊥
Parked gone opened w r p = (w + r ≡ 0) × (p ≡ 1)

pub record Stands (o : Owner) (s : Starter) (t : Thread) : Type 0 where
  pub owner : t.owner ≡ o
  pub starter : t.starter ≡ s
  pub started : t.started ≡ is_made (phase_of s)
  pub joined : t.joined ≡ true → (o ≡ in_join) ⊎ (s ≡ finished)
  pub tid : HasTid s t.tid
  pub calls : t.calls ≡ calls_of s
  pub count : t.latch.count ≡ pos (count_of (phase_of s))
  pub parked : Parked o (phase_of s) t.latch.waiting t.latch.ready t.latch.passed

abbrev pub Goes : Option Thread → Type 0
Goes m = (t : Thread) × (m ≡ some t) × Stands t.owner t.starter t

pub stays : (o : Owner) (s : Starter) (t : Thread) → Stands o s t → Goes (some t)
stays o s t v = (
  t,
  refl,
  subst (λ o. Stands o t.starter t) (sym v.owner) (subst (λ s. Stands o s t) (sym v.starter) v),
)

pub touching-Stands :
    (o : Owner) (w r p : ℕ) (m : Option Thread) → Parked o shut w r p → touching o m ≡ m
touching-Stands outside w r p m h = absurd h
touching-Stands at_wait w r p m h = refl
touching-Stands in_wait w r p m h = refl
touching-Stands in_join w r p m h = absurd h
touching-Stands gone w r p m h = absurd h

-- A step to `t'`.
pub goes :
    (o : Owner) (s : Starter) (m : Option Thread) (t : Thread) → m ≡ some t → Stands o s t → Goes m
goes o s m t e v = let (t', f, w) = stays o s t v in (t', e ∙ f, w)

pub count_down-Parked :
    (o : Owner) (l : CountDownLatch)
    → l.count ≡ pos 1
    → Parked o shut l.waiting l.ready l.passed
    → ((count_down l).count ≡ pos 0)
      × Parked o opened (count_down l).waiting (count_down l).ready (count_down l).passed
unfolding count_down
count_down-Parked outside l e h = absurd h
count_down-Parked at_wait l e h = rw e (refl, omega (arith, h))
count_down-Parked in_wait l e (h, z) = rw e (refl, (refl, omega (arith, h, z)))
count_down-Parked in_join l e h = absurd h
count_down-Parked gone l e h = absurd h

pub thread_step-Goes :
    (n : ℕ) (o : Owner) (s : Starter) (t : Thread) → Stands o s t → Goes (thread_step n o s t)
thread_step-Goes n o not_made t v = stays o not_made t v
thread_step-Goes n o begun t v =
    goes o has_tid _ (record t { tid = n + 1; starter = has_tid })
      (touching-Stands o t.latch.waiting t.latch.ready t.latch.passed _ v.parked)
      (record {
        owner = v.owner;
        starter = refl;
        started = v.started;
        joined = λ e. not_finished (v.joined e);
        tid = omega arith;
        calls = v.calls;
        count = v.count;
        parked = v.parked;
      })
  where
    not_finished : (o ≡ in_join) ⊎ (begun ≡ finished) → (o ≡ in_join) ⊎ (has_tid ≡ finished)
    not_finished (inl e) = inl e
    not_finished (inr e) = cc e
thread_step-Goes n o has_tid t v =
    let (c, p) = count_down-Parked o t.latch v.count v.parked in
    goes o counted _ (record t { latch = count_down t.latch; starter = counted })
      (touching-Stands o t.latch.waiting t.latch.ready t.latch.passed _ v.parked)
      (record {
        owner = v.owner;
        starter = refl;
        started = v.started;
        joined = λ e. not_finished (v.joined e);
        tid = v.tid;
        calls = v.calls;
        count = c;
        parked = p;
      })
  where
    not_finished : (o ≡ in_join) ⊎ (has_tid ≡ finished) → (o ≡ in_join) ⊎ (counted ≡ finished)
    not_finished (inl e) = inl e
    not_finished (inr e) = cc e
thread_step-Goes n o counted t v =
    goes o finished _ (record t { calls = t.calls + 1; starter = finished }) refl
      (record {
        owner = v.owner;
        starter = refl;
        started = v.started;
        joined = λ e. inr refl;
        tid = v.tid;
        calls = omega (arith, v.calls);
        count = v.count;
        parked = v.parked;
      })
thread_step-Goes n o finished t v = stays o finished t v
