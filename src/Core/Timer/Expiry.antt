-- ===== src/Core/Timer/Expiry.antt =====
-- src/core/Timer.cpp, `handleRead`: which timers leave the heap, and in which order.
use hohnor.Prelude.{
  ℕ, zero, suc, ◌+◌, ◌-◌, ◌<◌, ◌≡◌, refl, sym, ap, ◌∙◌, Bool, true, false, not, ◌&&◌, Bool-cases,
  inl, inr, List, [], ◌∷◌, ◌++◌, Option, none, some, length, arith, ◌*◌, max,
}
use hohnor.Common.BinaryHeap.{pop_top, top}
use hohnor.Common.BinaryHeap.Items.{count, one_if}
use hohnor.Common.BinaryHeap.Order.{is_heap}
use hohnor.Common.BinaryHeap.Least.{pop_top-least}
use hohnor.Core.Timer.{
  TimerHandler, TimerQueue, timer_cmp_less_than, expire, expire_loop, handle_read, reset_timerfd,
  how_much_time_from_now,
}
use hohnor.Core.Timer.Taken.{callbacks_of, repeats_of, ended_of}
use hohnor.Core.Timer.Popped.{
  timer_cmp_less_than-IsOrder, are_sorted, is_due, count-true, Expired, loop-empty, loop-stops,
  loop-goes, same_rest, expire_lem, After, stop-Expired, none_due-first, go-Expired,
}

-- With more fuel than timers the loop ends.
expire_loop-Expired :
    (fuel now : ℕ) (f : TimerHandler → Bool) (prev : TimerHandler) (q : TimerQueue)
    → is_heap timer_cmp_less_than q.heap ≡ true
    → length q.heap < fuel
    → After prev q
    → (r : TimerQueue) × (out : List TimerHandler) × (expire_loop fuel now q ≡ some r)
      × Expired now f prev q r out
expire_loop-Expired zero now f prev q h b a = absurd (omega arith)
expire_loop-Expired (suc fuel) now f prev q h b a =
    by_heap q.heap refl (λ x w. expire_loop-Expired fuel now f x (expire x w q))
  where
    less : TimerHandler → TimerHandler → Bool
    less = timer_cmp_less_than

    by_heap :
        (hs : List TimerHandler)
        → q.heap ≡ hs
        → ((x : TimerHandler) (w : List TimerHandler)
            → is_heap timer_cmp_less_than (expire x w q).heap ≡ true
            → length (expire x w q).heap < fuel
            → After x (expire x w q)
            → (r : TimerQueue) × (out : List TimerHandler) × (expire_loop fuel now (expire x w q)
                ≡ some r)
              × Expired now f x (expire x w q) r out)
        → (r : TimerQueue) × (out : List TimerHandler) × (expire_loop (suc fuel) now q ≡ some r)
          × Expired now f prev q r out
    by_heap [] e k =
        (q, [], loop-empty fuel now q e, stop-Expired now f prev q h (ap (count (is_due now)) e))
    by_heap (x ∷ xs) e k =
        let heap = ap (is_heap timer_cmp_less_than) (sym e) ∙ h in
        let (w, p, hw, i, least) =
          pop_top-least timer_cmp_less_than timer_cmp_less_than-IsOrder f x xs heap in
        let (w1, p1, _, i1, _) =
          pop_top-least timer_cmp_less_than timer_cmp_less_than-IsOrder
            (λ t. timer_cmp_less_than t x) x xs heap in
        let (w2, p2, _, i2, _) =
          pop_top-least timer_cmp_less_than timer_cmp_less_than-IsOrder (λ t. true) x xs heap in
        let e1 = same_rest x w1 w (pop_top timer_cmp_less_than (x ∷ xs)) p1 p in
        let e2 = same_rest x w2 w (pop_top timer_cmp_less_than (x ∷ xs)) p2 p in
        elim (Bool-cases (is_due now x)) [
          | inl d ↦
              let (hx, _) = expire_lem x w q in
              let (r, out, g, s) =
                k x w (ap (is_heap timer_cmp_less_than) hx ∙ hw)
                  (omega (
                    arith,
                    ap length hx,
                    ap (count (λ (t : TimerHandler). true)) e2,
                    i2,
                    count-true w,
                    count-true xs,
                    ap length e,
                    b,
                  ))
                  (omega (
                    arith,
                    ap (count (λ t. timer_cmp_less_than t x)) hx,
                    ap (count (λ t. timer_cmp_less_than t x)) e1,
                    i1,
                    least,
                  )) in
              (
                r,
                x ∷ out,
                loop-goes fuel now q x xs w e d p ∙ g,
                go-Expired now f prev x xs w q r out e d a i s,
              )
          | inr n ↦ (
            q,
            [],
            loop-stops fuel now q x xs e n,
            stop-Expired now f prev q h
                (ap (count (is_due now)) e ∙ none_due-first now x xs n least),
          )
        ]

-- No timer comes before one that expires at zero with sequence zero.
abbrev earliest : TimerHandler
earliest = record {
  expiration = 0;
  interval = none;
  disabled = true;
  sequence = 0;
  callback = none;
}

none-before : (ts : List TimerHandler) → count (λ t. timer_cmp_less_than t earliest) ts ≡ 0
none-before [] = refl
none-before (t ∷ ts) =
    let e : timer_cmp_less_than t earliest ≡ false = ground arith in
    omega (arith, ap one_if e, none-before ts)

sorted-tail :
    (a : TimerHandler) (ts : List TimerHandler) → are_sorted (a ∷ ts) ≡ true → are_sorted ts ≡ true
sorted-tail a [] h = refl
sorted-tail a (b ∷ ts) h = by_test (not (timer_cmp_less_than b a)) (are_sorted (b ∷ ts)) h
  where
    by_test : (l k : Bool) → l && k ≡ true → k ≡ true
    by_test true k h = h
    by_test false k h = cc

-- Setting the timerfd changes nothing else.
reset_lem : (q : TimerQueue) → (m : Option ℕ) × (reset_timerfd q ≡ record q { armed = m })
reset_lem q = by_top (top timer_cmp_less_than q.heap) refl
  where
    by_top :
        (m : Option TimerHandler)
        → top timer_cmp_less_than q.heap ≡ m
        → (m : Option ℕ) × (reset_timerfd q ≡ record q { armed = m })
    by_top none e = (q.armed, rw (reset_timerfd, e) refl)
    by_top (some t) e = (some t.expiration, rw (reset_timerfd, e) refl)

-- From a heap, `handleRead` ends; the timers that it takes out are all due, in the order of their
-- expirations and sequences; their callbacks run in that order, those that repeat are queued with their next
-- expirations, and the others are disabled and lose their callbacks; none that is left is due; those taken out
-- and those left are the timers that were there; and what is left is a heap.
pub handle_read-due :
    (now : ℕ) (f : TimerHandler → Bool) (q : TimerQueue)
    → is_heap timer_cmp_less_than q.heap ≡ true
    → (r : TimerQueue) × (out : List TimerHandler) × (handle_read now q ≡ some r)
      × (r.popped ≡ q.popped ++ out)
      × (r.ran ≡ q.ran ++ callbacks_of out)
      × (r.queued ≡ q.queued ++ repeats_of out)
      × (r.finished ≡ q.finished ++ ended_of out)
      × (are_sorted out ≡ true)
      × (count (λ t. not (is_due now t)) out ≡ 0)
      × (count (is_due now) r.heap ≡ 0)
      × (count f out + count f r.heap ≡ count f q.heap)
      × (is_heap timer_cmp_less_than r.heap ≡ true)
unfolding handle_read
handle_read-due now f q h =
    let (r, out, e, s) =
      expire_loop-Expired (length q.heap + 1) now f earliest q h (omega arith)
        (none-before q.heap) in
    let (m, a) = reset_lem r in
    (
      record r { armed = m },
      out,
      rw (e, a) refl,
      s.log,
      s.effects.ran,
      s.effects.queued,
      s.effects.finished,
      sorted-tail earliest out s.sorted,
      s.all_due,
      s.none_due,
      s.items,
      s.heap,
    )

-- The time that the timerfd is set to is at least a tenth of a millisecond, as `timerfd_settime` wants it: the
-- nanoseconds are below a second, and the whole is the time to go if that is more.
how_much_time_from_now-bounds :
    (when now : ℕ)
    → ((how_much_time_from_now when now).1 < 1000000000)
      × ((how_much_time_from_now when now).0 * 1000000000 + (how_much_time_from_now when now).1
          ≡ max 100 (when - now) * 1000)
unfolding how_much_time_from_now
how_much_time_from_now-bounds when now = (ground arith, ground arith)
