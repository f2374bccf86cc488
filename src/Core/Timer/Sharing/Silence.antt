-- ===== src/Core/Timer/Sharing/Silence.antt =====
-- src/core/Timer.cpp: a timer that is disabled is silent.
use hohnor.Prelude.{
  ℕ, ◌+◌, ◌≡◌, refl, sym, ap, ◌∙◌, true, false, not, ◌&&◌, List, [], ◌∷◌, some, ◌==◌, arith,
}
use hohnor.Common.BinaryHeap.Items.{count, one_if, one_if-zero}
use hohnor.Common.BinaryHeap.Order.{is_heap}
use hohnor.Core.Timer.{TimerHandler, TimerQueue, timer_cmp_less_than, disable, add_timer}
use hohnor.Core.Timer.Sharing.{
  Step, add_one, enter_one, read_at, disable_one, update_one, if_handle, disable_by_handle,
  update_by_handle, enter, step, run_all,
}
use hohnor.Core.Timer.Sharing.Carries.{
  carries, brings, disable-carries, if_handle-keeps, disable-keeps,
}
use hohnor.Core.Timer.Sharing.Steps.{
  IsSilent, Stays, changed-IsSilent, by_handle-silent, disable_by_handle-Stays,
  update_by_handle-Stays, handle_read-Stays, add_timer-Stays, add_timer_in_loop-Stays,
}

module _ (k : ℕ) where
  queued-tail :
      (t : TimerHandler) (ts : List TimerHandler) (q : TimerQueue)
      → q.queued ≡ t ∷ ts
      → IsSilent k q
      → IsSilent k (record q { queued = ts }) × (carries k t ≡ false)
  queued-tail t ts q e v =
      let all : one_if (carries k t) + count (carries k) ts ≡ 0 =
        sym (ap (count (carries k)) e) ∙ v.queued in
      (
        record { heap = v.heap; waiting = v.waiting; queued = omega (arith, all) },
        one_if-zero (carries k t) (count (carries k) ts) all,
      )

  enter-Stays :
      (ts : List TimerHandler) (q : TimerQueue)
      → q.queued ≡ ts
      → IsSilent k q
      → Stays k q (enter ts q)
  unfolding enter
  enter-Stays [] q e v = (q, refl, v, refl)
  enter-Stays (t ∷ ts) q e v =
      let (w, n) = queued-tail t ts q e v in
      add_timer_in_loop-Stays k t (record q { queued = ts }) n w

  step-Stays :
      (s : Step) (q : TimerQueue) → brings k s ≡ false → IsSilent k q → Stays k q (step s q)
  step-Stays (add_one cb when interval) q n v = (
    add_timer cb when interval q,
    refl,
    add_timer-Stays k cb when interval q n v,
    unfold add_timer in refl,
  )
  step-Stays enter_one q n v = enter-Stays q.queued q refl v
  step-Stays (read_at now) q n v = handle_read-Stays k now q v
  step-Stays (disable_one s) q n v = (
    disable_by_handle s q,
    refl,
    disable_by_handle-Stays k s q v,
    unfold disable_by_handle in refl,
  )
  step-Stays (update_one s cb) q n v = (
    update_by_handle s cb q,
    refl,
    update_by_handle-Stays k s cb q n v,
    unfold update_by_handle in refl,
  )

  run_all-Stays :
      (steps : List Step) (q : TimerQueue)
      → count (brings k) steps ≡ 0
      → IsSilent k q
      → Stays k q (run_all steps q)
  unfolding run_all
  run_all-Stays [] q n v = (q, refl, v, refl)
  run_all-Stays (s ∷ steps) q n v =
      let (r, e, w, same) =
        step-Stays s q (one_if-zero (brings k s) (count (brings k) steps) n) v in
      let (r', e', w', same') = run_all-Stays steps r (omega (arith, n)) w in
      (r', rw e e', w', same' ∙ same)

-- Where of the timers that wait only the one with the handle `s` would run `k`: once it is disabled, `k` never
-- runs again, whatever timers are added and enter the heap, whenever the loop reads the timerfd and whichever
-- timers are disabled or get new callbacks, as long as none of these is `k`; and none of it fails.
pub run_all-silent :
    (k s : ℕ) (steps : List Step) (q : TimerQueue)
    → is_heap timer_cmp_less_than q.heap ≡ true
    → count (λ t. carries k t && not (t.sequence == s)) q.heap ≡ 0
    → count (λ t. carries k t && not (t.sequence == s)) q.queued ≡ 0
    → count (brings k) steps ≡ 0
    → (r : TimerQueue) × (run_all steps (disable_by_handle s q) ≡ some r)
      × (count (λ c. c == k) r.ran ≡ count (λ c. c == k) q.ran)
      × (is_heap timer_cmp_less_than r.heap ≡ true)
unfolding disable_by_handle
run_all-silent k s steps q h w d n =
    let v =
      changed-IsSilent k q (λ t. carries k t && not (t.sequence == s)) (if_handle s disable)
        (if_handle-keeps s disable disable-keeps)
        (λ t. by_handle-silent k s disable t (disable-carries k t)) h w d in
    let (r, e, x, same) = run_all-Stays k steps (disable_by_handle s q) n v in (r, e, same, x.heap)
