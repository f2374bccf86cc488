-- ===== src/Thread/CountDownLatch/Opening.antt =====
-- include/hohnor/thread/CountDownLatch.h: the latch lets threads through exactly once it has opened.
use hohnor.Prelude.{
  ℕ, ◌+◌, ◌-◌, ◌≤◌, ◌<◌, ◌≡◌, refl, ap, ◌∙◌, ◌⊎◌, inl, inr, Bool, true, List, [], ◌∷◌, arith, ◌==◌,
  ltb, if◌then◌else◌, Bool-cases,
}
use hohnor.Prelude.Int.{pos, ltb_ℤ}
use hohnor.Thread.CountDownLatch.{
  CountDownLatch, create, wait, count_down, Event, wait_call, wait_again, count_call, spurious,
  step, run,
}

-- Whether threads may sleep, and whether some may have passed.
abbrev pub is_sound : CountDownLatch → Bool
is_sound l = if ltb_ℤ (pos 0) l.count then l.passed == 0 else l.waiting == 0

step-is_sound : (l : CountDownLatch) (e : Event) → is_sound l ≡ true → is_sound (step l e) ≡ true
unfolding step wait count_down
step-is_sound l wait_call h = ground arith
step-is_sound l wait_again h = ground arith
step-is_sound l count_call h = ground arith
step-is_sound l spurious h = ground arith

run-is_sound :
    (l : CountDownLatch) (es : List Event) → is_sound l ≡ true → is_sound (run l es) ≡ true
unfolding run
run-is_sound l [] h = h
run-is_sound l (e ∷ es) h = run-is_sound (step l e) es (step-is_sound l e h)

-- The calls of `countDown` in a run.
abbrev pub downs : List Event → ℕ
downs [] = 0
downs (wait_call ∷ es) = downs es
downs (wait_again ∷ es) = downs es
downs (count_call ∷ es) = downs es + 1
downs (spurious ∷ es) = downs es

-- What a step does to a count that is not below zero.
abbrev lowered : Event → ℕ → ℕ
lowered wait_call n = n
lowered wait_again n = n
lowered count_call n = n - 1
lowered spurious n = n

count-step :
    (l : CountDownLatch) (e : Event) (n : ℕ)
    → l.count ≡ pos n
    → downs (e ∷ []) ≤ n
    → (step l e).count ≡ pos (lowered e n)
unfolding step wait count_down
count-step l wait_call n h d = ground arith
count-step l wait_again n h d = ground arith
count-step l count_call n h d = ground arith
count-step l spurious n h d = ground arith

downs-first : (e : Event) (es : List Event) → downs (e ∷ es) ≡ downs (e ∷ []) + downs es
downs-first wait_call es = omega arith
downs-first wait_again es = omega arith
downs-first count_call es = omega arith
downs-first spurious es = omega arith

lowered_lem : (e : Event) (n : ℕ) → lowered e n ≡ n - downs (e ∷ [])
lowered_lem wait_call n = omega arith
lowered_lem wait_again n = omega arith
lowered_lem count_call n = omega arith
lowered_lem spurious n = omega arith

count-run :
    (l : CountDownLatch) (es : List Event) (n : ℕ)
    → l.count ≡ pos n
    → downs es ≤ n
    → (run l es).count ≡ pos (n - downs es)
unfolding run
count-run l [] n h d = h ∙ ap pos (omega arith)
count-run l (e ∷ es) n h d =
    count-run (step l e) es (lowered e n) (count-step l e n h (omega (arith, downs-first e es, d)))
      (omega (arith, downs-first e es, lowered_lem e n, d))
    ∙ ap pos (omega (arith, downs-first e es, lowered_lem e n, d))

create-is_sound : (n : ℕ) → is_sound (create (pos n)) ≡ true
unfolding create
create-is_sound n = ground arith

-- On every schedule of threads that wait and count down, of a latch made with `n`: while `countDown` has
-- been called fewer than `n` times, no thread has passed `wait`; and after the `n`-th call none sleeps in it.
pub run-opens :
    (n : ℕ) (es : List Event)
    → downs es ≤ n
    → ((downs es < n) × ((run (create (pos n)) es).passed ≡ 0))
      ⊎ ((downs es ≡ n) × ((run (create (pos n)) es).waiting ≡ 0))
run-opens n es d =
    by_count (run (create (pos n)) es) (run-is_sound (create (pos n)) es (create-is_sound n))
      (count-run (create (pos n)) es n (unfold create in refl) d)
  where
    by_count :
        (l : CountDownLatch)
        → is_sound l ≡ true
        → l.count ≡ pos (n - downs es)
        → ((downs es < n) × (l.passed ≡ 0)) ⊎ ((downs es ≡ n) × (l.waiting ≡ 0))
    by_count l h c = elim (Bool-cases (ltb (downs es) n)) [
      | inl t ↦ inl (ground arith)
      | inr f ↦ inr (ground arith)
    ]
