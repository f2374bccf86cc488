-- ===== src/Core/Timer/Sharing/Clearing.antt =====
-- src/core/Timer.cpp, `TimerQueue::~TimerQueue`.
use hohnor.Prelude.{
  ℕ, zero, suc, ◌+◌, ◌<◌, ◌≡◌, refl, sym, ap, ◌∙◌, true, not, List, [], ◌∷◌, ◌++◌, append-nil,
  append_assoc, Option, some, length, ◌==◌, arith,
}
use hohnor.Common.BinaryHeap.{pop_top}
use hohnor.Common.BinaryHeap.Items.{count, one_if}
use hohnor.Common.BinaryHeap.Order.{is_heap}
use hohnor.Common.BinaryHeap.Least.{pop_top-least}
use hohnor.Core.Timer.{TimerHandler, TimerQueue, timer_cmp_less_than, disable}
use hohnor.Core.Timer.Popped.{timer_cmp_less_than-IsOrder, count-true, same_rest}
use hohnor.Core.Timer.Sharing.{destroy, destroy_loop}

disable-off : (t : TimerHandler) → (disable t).disabled ≡ true
unfolding disable
disable-off t = ground arith

disable-same : (t : TimerHandler) → (disable t).sequence ≡ t.sequence
unfolding disable
disable-same t = ground arith

destroy_loop-takes :
    (fuel : ℕ) (x : TimerHandler) (xs w done : List TimerHandler)
    → pop_top timer_cmp_less_than (x ∷ xs) ≡ some (x, w)
    → destroy_loop (suc fuel) (x ∷ xs) done ≡ destroy_loop fuel w (done ++ disable x ∷ [])
unfolding destroy_loop
destroy_loop-takes fuel x xs w done p = rw (destroy_loop, p) refl

module _ (s : ℕ) where
  -- Those that the loop took out, all disabled, and one for each that was there.
  abbrev Cleared : List TimerHandler → List TimerHandler → Option (List TimerHandler) → Type 0
  Cleared heap done m =
      (out : List TimerHandler) × (m ≡ some (done ++ out))
      × (count (λ t. not t.disabled) out ≡ 0)
      × (count (λ t. t.sequence == s) out ≡ count (λ t. t.sequence == s) heap)

  destroy_loop-Cleared :
      (fuel : ℕ) (heap done : List TimerHandler)
      → is_heap timer_cmp_less_than heap ≡ true
      → length heap < fuel
      → Cleared heap done (destroy_loop fuel heap done)
  unfolding destroy_loop
  destroy_loop-Cleared zero heap done h b = absurd (omega (arith, b))
  destroy_loop-Cleared (suc fuel) [] done h b = ([], ap some (sym (append-nil done)), refl, refl)
  destroy_loop-Cleared (suc fuel) (x ∷ xs) done h b =
      let (w, p, hw, i, _) =
        pop_top-least timer_cmp_less_than timer_cmp_less_than-IsOrder (λ t. t.sequence == s) x xs
          h in
      let (w', p', _, i', _) =
        pop_top-least timer_cmp_less_than timer_cmp_less_than-IsOrder (λ t. true) x xs h in
      let same = same_rest x w' w (pop_top timer_cmp_less_than (x ∷ xs)) p' p in
      let fits : length w < fuel =
        omega (
          arith,
          ap (count (λ (t : TimerHandler). true)) same,
          i',
          b,
          count-true w,
          count-true xs,
        ) in
      let (out, e, off, all) = destroy_loop-Cleared fuel w (done ++ disable x ∷ []) hw fits in
      (
        disable x ∷ out,
        destroy_loop-takes fuel x xs w done p
            ∙ e
            ∙ ap some (append_assoc done (disable x ∷ []) out),
        omega (arith, off, ap (λ b. one_if (not b)) (disable-off x)),
        omega (arith, all, i, ap (λ n. one_if (n == s)) (disable-same x)),
      )

-- The destructor ends, and every timer of the heap is then disabled.
destroy-disables :
    (s : ℕ) (q : TimerQueue)
    → is_heap timer_cmp_less_than q.heap ≡ true
    → (out : List TimerHandler) × (destroy q ≡ some out)
      × (count (λ t. not t.disabled) out ≡ 0)
      × (count (λ t. t.sequence == s) out ≡ count (λ t. t.sequence == s) q.heap)
destroy-disables s q h = destroy_loop-Cleared s (length q.heap + 1) q.heap [] h (omega arith)
