-- ===== src/Core/Timer/Sharing/Steps.antt =====
-- src/core/Timer.cpp: no call or step brings in a callback that no timer carries.
use hohnor.Prelude.{
  ℕ, ◌≡◌, refl, ap, ◌∙◌, Bool, true, false, not, ◌&&◌, Bool-cases, inl, inr, List, [], ◌∷◌, map,
  Option, some, length, ◌==◌, arith, ◌<◌,
}
use hohnor.Common.BinaryHeap.{insert, top}
use hohnor.Common.BinaryHeap.Items.{count, one_if, count-append}
use hohnor.Common.BinaryHeap.Order.{is_heap, insert-is_heap}
use hohnor.Common.BinaryHeap.Mapped.{count-map_zero, count-append_list, is_heap-map}
use hohnor.Core.Timer.{
  TimerHandler, TimerQueue, timer_cmp_less_than, disable, handle_read, add_timer, add_timer_in_loop,
}
use hohnor.Core.Timer.Taken.{callbacks_of, repeats_of}
use hohnor.Core.Timer.Popped.{timer_cmp_less_than-IsOrder, count-true}
use hohnor.Core.Timer.Expiry.{handle_read-due}
use hohnor.Core.Timer.Sharing.{if_handle, update_callback, disable_by_handle, update_by_handle}
use hohnor.Core.Timer.Sharing.Carries.{
  is_callback, carries, disable-carries, update-carries, callbacks_of-silent, repeats_of-silent,
  if_handle-keeps, same_keys, disable-keeps, update_callback-keeps,
}

module _ (k : ℕ) where
  -- The heap is one, and no timer that waits would run `k`.
  pub record IsSilent (q : TimerQueue) : Type 0 where
    pub heap : is_heap timer_cmp_less_than q.heap ≡ true
    pub waiting : count (carries k) q.heap ≡ 0
    pub queued : count (carries k) q.queued ≡ 0

  -- It returns, `k` has not run, and the rest is as silent.
  abbrev pub Stays : TimerQueue → Option TimerQueue → Type 0
  Stays q m =
      (r : TimerQueue) × (m ≡ some r)
      × IsSilent r
      × (count (λ c. c == k) r.ran ≡ count (λ c. c == k) q.ran)

  pub changed-IsSilent :
      (q : TimerQueue) (f : TimerHandler → Bool) (g : TimerHandler → TimerHandler)
      → ((t : TimerHandler) → ((g t).expiration ≡ t.expiration) × ((g t).sequence ≡ t.sequence))
      → ((t : TimerHandler) → f t ≡ false → carries k (g t) ≡ false)
      → is_heap timer_cmp_less_than q.heap ≡ true
      → count f q.heap ≡ 0
      → count f q.queued ≡ 0
      → IsSilent (record q { heap = map g q.heap; queued = map g q.queued })
  changed-IsSilent q f g keeps silent h w d = record {
    heap = is_heap-map timer_cmp_less_than g (same_keys g keeps) q.heap ∙ h;
    waiting = count-map_zero f (carries k) g q.heap silent w;
    queued = count-map_zero f (carries k) g q.queued silent d;
  }

  pub by_handle-silent :
      (s : ℕ) (change : TimerHandler → TimerHandler) (t : TimerHandler)
      → carries k (change t) ≡ false
      → carries k t && not (t.sequence == s) ≡ false
      → carries k (if_handle s change t) ≡ false
  by_handle-silent s change t c h = by_test (carries k t) (t.sequence == s) refl refl h
    where
      by_test :
          (b e : Bool)
          → carries k t ≡ b
          → (t.sequence == s) ≡ e
          → b && not e ≡ false
          → carries k (if_handle s change t) ≡ false
      by_test b true eb e x = rw e c
      by_test false false eb e x = rw e eb
      by_test true false eb e x = cc

  pub disable_by_handle-Stays :
      (s : ℕ) (q : TimerQueue) → IsSilent q → IsSilent (disable_by_handle s q)
  unfolding disable_by_handle
  disable_by_handle-Stays s q v =
      changed-IsSilent q (carries k) (if_handle s disable) (if_handle-keeps s disable disable-keeps)
        (λ t h.
          by_handle-silent s disable t (disable-carries k t)
            (ap (λ b. b && not (t.sequence == s)) h))
        v.heap v.waiting v.queued

  pub update_by_handle-Stays :
      (s : ℕ) (cb : Option ℕ) (q : TimerQueue)
      → is_callback k cb ≡ false
      → IsSilent q
      → IsSilent (update_by_handle s cb q)
  unfolding update_by_handle
  update_by_handle-Stays s cb q n v =
      changed-IsSilent q (carries k) (if_handle s (update_callback cb))
        (if_handle-keeps s (update_callback cb) (update_callback-keeps cb))
        (λ t h.
          by_handle-silent s (update_callback cb) t (update-carries k cb t n)
            (ap (λ b. b && not (t.sequence == s)) h))
        v.heap v.waiting v.queued

  pub handle_read-Stays : (now : ℕ) (q : TimerQueue) → IsSilent q → Stays q (handle_read now q)
  handle_read-Stays now q v =
      let (r, out, e, _, ran, queued, _, _, _, _, items, heap) =
        handle_read-due now (carries k) q v.heap in
      let none_out : count (carries k) out ≡ 0 = omega (arith, items, v.waiting) in
      (
        r,
        e,
        record {
          heap = heap;
          waiting = omega (arith, items, v.waiting);
          queued = omega (
            arith,
            ap (count (carries k)) queued,
            count-append_list (carries k) q.queued (repeats_of out),
            v.queued,
            repeats_of-silent k out none_out,
          );
        },
        omega (
          arith,
          ap (count (λ c. c == k)) ran,
          count-append_list (λ c. c == k) q.ran (callbacks_of out),
          callbacks_of-silent k out none_out,
        ),
      )

  pub add_timer-Stays :
      (cb : Option ℕ) (when : ℕ) (interval : Option ℕ) (q : TimerQueue)
      → is_callback k cb ≡ false
      → IsSilent q
      → IsSilent (add_timer cb when interval q)
  unfolding add_timer
  add_timer-Stays cb when interval q n v = record {
    heap = v.heap;
    waiting = v.waiting;
    queued = omega (
      arith,
      count-append (carries k) q.queued (record {
        expiration = when;
        interval = interval;
        disabled = false;
        sequence = q.created;
        callback = cb;
      }),
      v.queued,
      ap one_if n,
    );
  }

  add_timer_in_loop-goes :
      (t : TimerHandler) (q : TimerQueue) (w : List TimerHandler)
      → insert timer_cmp_less_than t q.heap ≡ some w
      → 0 < length w
      → (m : Option ℕ) × (add_timer_in_loop t q ≡ some (record q { heap = w; armed = m }))
  unfolding add_timer_in_loop top
  add_timer_in_loop-goes t q [] e p = absurd (omega (arith, p))
  add_timer_in_loop-goes t q (x ∷ xs) e p = elim (Bool-cases (x.sequence == t.sequence)) [
    | inl y ↦ (some t.expiration, rw (e, y) refl)
    | inr n ↦ (q.armed, rw (e, n) refl)
  ]

  same_heap :
      (v w : List TimerHandler) (m : Option (List TimerHandler)) → m ≡ some v → m ≡ some w → v ≡ w
  same_heap v w m e g = cc

  pub add_timer_in_loop-Stays :
      (t : TimerHandler) (q : TimerQueue)
      → carries k t ≡ false
      → IsSilent q
      → Stays q (add_timer_in_loop t q)
  add_timer_in_loop-Stays t q n v =
      let (w, e, h, i) =
        insert-is_heap timer_cmp_less_than timer_cmp_less_than-IsOrder (carries k) t q.heap
          v.heap in
      let (w', e', _, i') =
        insert-is_heap timer_cmp_less_than timer_cmp_less_than-IsOrder (λ t. true) t q.heap
          v.heap in
      let same = same_heap w' w (insert timer_cmp_less_than t q.heap) e' e in
      let (m, g) =
        add_timer_in_loop-goes t q w e
          (omega (arith, ap (count (λ (t : TimerHandler). true)) same, i', count-true w)) in
      (
        record q { heap = w; armed = m },
        g,
        record { heap = h; waiting = omega (arith, i, v.waiting, ap one_if n); queued = v.queued },
        refl,
      )
