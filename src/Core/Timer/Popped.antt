-- ===== src/Core/Timer/Popped.antt =====
-- src/core/Timer.cpp: what the steps of the loop of `handleRead` do.
use hohnor.Prelude.{
  ℕ, suc, ◌+◌, ◌≤◌, ◌≡◌, refl, sym, ap, ap₂, ◌∙◌, Bool, true, false, not, ◌&&◌, Bool-cases, inl,
  inr, List, [], ◌∷◌, ◌++◌, append_assoc, append-nil, Option, none, some, length, arith, leb,
  if◌then◌else◌,
}
use hohnor.Common.BinaryHeap.{pop_top, top}
use hohnor.Common.BinaryHeap.Items.{count, one_if, one_if-zero}
use hohnor.Common.BinaryHeap.Path.{IsOrder}
use hohnor.Common.BinaryHeap.Order.{is_heap}
use hohnor.Core.Timer.{
  TimerHandler, TimerQueue, timer_cmp_less_than, expire, expire_loop, take_due, is_repeat, run,
  reload_in_loop,
}
use hohnor.Core.Timer.Taken.{
  callbacks_of, repeats_of, ended_of, append-if, append-if_not, run-callbacks_of, reload-repeats_of,
  is_repeat-ended_of,
}

pub timer_cmp_less_than-IsOrder : IsOrder timer_cmp_less_than
timer_cmp_less_than-IsOrder = record {
  asym = λ a b h. ground arith;
  trans = λ a b c h k. ground arith;
}

-- Whether no timer comes before the one in front of it.
abbrev pub are_sorted : List TimerHandler → Bool
are_sorted [] = true
are_sorted (a ∷ []) = true
are_sorted (a ∷ b ∷ ts) = not (timer_cmp_less_than b a) && are_sorted (b ∷ ts)

abbrev pub is_due : ℕ → TimerHandler → Bool
is_due now t = leb t.expiration now

module _ {ℓ} {A : Type ℓ} where
  pub count-true : (v : List A) → count (λ x. true) v ≡ length v
  count-true [] = refl
  count-true (x ∷ xs) = omega (arith, count-true xs)

  count-le :
      (f g : A → Bool) (v : List A) → ((x : A) → f x ≡ true → g x ≡ true) → count f v ≤ count g v
  count-le f g [] k = omega arith
  count-le f g (x ∷ xs) k = elim (Bool-cases (f x)) [
    | inl t ↦ omega (arith, ap one_if t, ap one_if (k x t), count-le f g xs k)
    | inr n ↦ omega (arith, ap one_if n, count-le f g xs k)
  ]

-- What the loop does with the timers that it takes out: it runs the callbacks, the timers that repeat go to the
-- functors, and the others are done.
pub record Effects (q r : TimerQueue) (out : List TimerHandler) : Type 0 where
  pub ran : r.ran ≡ q.ran ++ callbacks_of out
  pub queued : r.queued ≡ q.queued ++ repeats_of out
  pub finished : r.finished ≡ q.finished ++ ended_of out

-- What the loop leaves, with `out` the timers that it took out, the first of them not before `prev`.
pub record Expired (now : ℕ) (f : TimerHandler → Bool) (prev : TimerHandler) (q r : TimerQueue)
    (out : List TimerHandler) : Type 0 where
  pub heap : is_heap timer_cmp_less_than r.heap ≡ true
  pub log : r.popped ≡ q.popped ++ out
  pub effects : Effects q r out
  pub none_due : count (is_due now) r.heap ≡ 0
  pub all_due : count (λ t. not (is_due now t)) out ≡ 0
  pub sorted : are_sorted (prev ∷ out) ≡ true
  pub items : count f out + count f r.heap ≡ count f q.heap

pub loop-empty :
    (fuel now : ℕ) (q : TimerQueue) → q.heap ≡ [] → expire_loop (suc fuel) now q ≡ some q
unfolding expire_loop top
loop-empty fuel now q h = ground arith

pub loop-stops :
    (fuel now : ℕ) (q : TimerQueue) (x : TimerHandler) (xs : List TimerHandler)
    → q.heap ≡ x ∷ xs
    → is_due now x ≡ false
    → expire_loop (suc fuel) now q ≡ some q
unfolding expire_loop top
loop-stops fuel now q x xs h n = ground arith

top_lem : (x : TimerHandler) (xs : List TimerHandler) → top timer_cmp_less_than (x ∷ xs) ≡ some x
unfolding top
top_lem x xs = refl

pub loop-goes :
    (fuel now : ℕ) (q : TimerQueue) (x : TimerHandler) (xs w : List TimerHandler)
    → q.heap ≡ x ∷ xs
    → is_due now x ≡ true
    → pop_top timer_cmp_less_than (x ∷ xs) ≡ some (x, w)
    → expire_loop (suc fuel) now q ≡ expire_loop fuel now (expire x w q)
unfolding expire_loop
loop-goes fuel now q x xs w h d e =
    let first : top timer_cmp_less_than q.heap ≡ some x =
      ap (top timer_cmp_less_than) h ∙ top_lem x xs in
    let both : pop_top timer_cmp_less_than q.heap ≡ some (x, w) =
      ap (pop_top timer_cmp_less_than) h ∙ e in
    ap
      (λ m. elim m [
        | none ↦ some q
        | some y ↦
            if is_due now y
            then (take_due (pop_top timer_cmp_less_than q.heap)
                λ t rest. expire_loop fuel now (expire t rest q))
            else some q
      ])
      first
    ∙ ap
        (λ b.
          if b
          then (take_due (pop_top timer_cmp_less_than q.heap)
              λ t rest. expire_loop fuel now (expire t rest q))
          else some q)
        d
    ∙ ap (λ m. take_due m λ t rest. expire_loop fuel now (expire t rest q)) both

pub same_rest :
    (x : TimerHandler) (v w : List TimerHandler) (m : Option (TimerHandler × List TimerHandler))
    → m ≡ some (x, v)
    → m ≡ some (x, w)
    → v ≡ w
same_rest x v w m e g = cc

pub expire_lem :
    (x : TimerHandler) (w : List TimerHandler) (q : TimerQueue)
    → ((expire x w q).heap ≡ w) × ((expire x w q).popped ≡ q.popped ++ x ∷ [])
unfolding expire
expire_lem x w q = (refl, refl)

no-Effects : (q : TimerQueue) → Effects q q []
no-Effects q = record {
  ran = sym (append-nil q.ran);
  queued = sym (append-nil q.queued);
  finished = sym (append-nil q.finished);
}

expire-Effects :
    (x : TimerHandler) (w : List TimerHandler) (q r : TimerQueue) (out : List TimerHandler)
    → Effects (expire x w q) r out
    → Effects q r (x ∷ out)
unfolding expire
expire-Effects x w q r out e = record {
  ran =
      e.ran
      ∙ append_assoc q.ran (run x) (callbacks_of out)
      ∙ ap (λ l. q.ran ++ l) (run-callbacks_of x out);
  queued =
      e.queued
      ∙ append-if (is_repeat x) q.queued (repeats_of out) (reload_in_loop x)
      ∙ ap (λ l. q.queued ++ l) (reload-repeats_of x out);
  finished =
      e.finished
      ∙ append-if_not (is_repeat x) q.finished (ended_of out)
          (record x { disabled = true; callback = none })
      ∙ ap (λ l. q.finished ++ l) (is_repeat-ended_of x out);
}

-- No timer of the heap is before `prev`.
abbrev pub After : TimerHandler → TimerQueue → Type 0
After prev q = count (λ t. timer_cmp_less_than t prev) q.heap ≡ 0

pub stop-Expired :
    (now : ℕ) (f : TimerHandler → Bool) (prev : TimerHandler) (q : TimerQueue)
    → is_heap timer_cmp_less_than q.heap ≡ true
    → count (is_due now) q.heap ≡ 0
    → Expired now f prev q q []
stop-Expired now f prev q h n = record {
  heap = h;
  log = sym (append-nil q.popped);
  effects = no-Effects q;
  none_due = n;
  all_due = refl;
  sorted = refl;
  items = omega arith;
}

pub none_due-first :
    (now : ℕ) (x : TimerHandler) (xs : List TimerHandler)
    → is_due now x ≡ false
    → count (λ t. timer_cmp_less_than t x) (x ∷ xs) ≡ 0
    → count (is_due now) (x ∷ xs) ≡ 0
none_due-first now x xs n h =
    omega (
      arith,
      h,
      count-le (is_due now) (λ t. timer_cmp_less_than t x) (x ∷ xs) (λ t d. ground arith),
    )

pub go-Expired :
    (now : ℕ) (f : TimerHandler → Bool) (prev x : TimerHandler) (xs w : List TimerHandler)
    (q r : TimerQueue) (out : List TimerHandler)
    → q.heap ≡ x ∷ xs
    → is_due now x ≡ true
    → After prev q
    → one_if (f x) + count f w ≡ count f (x ∷ xs)
    → Expired now f x (expire x w q) r out
    → Expired now f prev q r (x ∷ out)
go-Expired now f prev x xs w q r out h d a i e =
    let (hw, hp) = expire_lem x w q in
    record {
      heap = e.heap;
      log = e.log ∙ ap (λ l. l ++ out) hp ∙ append_assoc q.popped (x ∷ []) out;
      effects = expire-Effects x w q r out e.effects;
      none_due = e.none_due;
      all_due = omega (arith, e.all_due, ap (λ b. one_if (not b)) d);
      sorted = ap₂ ◌&&◌ (ap not first) e.sorted;
      items = omega (arith, e.items, ap (count f) hw, i, ap (count f) h);
    }
  where
    first : timer_cmp_less_than x prev ≡ false
    first =
        one_if-zero (timer_cmp_less_than x prev) (count (λ t. timer_cmp_less_than t prev) xs)
          (sym (ap (count (λ t. timer_cmp_less_than t prev)) h) ∙ a)
