-- ===== src/Core/EventLoop/Order.antt =====
-- src/core/EventLoop.cpp: the queue's functors run once each, in the order in which they came.
use hohnor.Prelude.{
  ℕ, ◌+◌, ◌≡◌, refl, true, false, not, ◌&&◌, ◌||◌, Bool-cases, inl, inr, List, [], ◌∷◌, ◌++◌,
  Option, none, some, arith, ltb, some-inj, subst, guarded, if_elim,
}
use hohnor.Core.EventLoop.{
  EventLoop, is_polling, is_ready, is_io_handling, is_ended, is_pending_handling, is_none_left,
  System, Event, start, poll_return, run_wake, take_functors, run_first, turn, wake_loop,
  push_functor, queue_own, ask_end, step, run, initial, create, start_loop, next_turn,
  poll_returned, run_wake_handler, handle_wake_up, take_pending, push, queue_in_loop,
  wake_after_push, end_loop, with_loop, run_first_of,
}
use hohnor.Core.EventLoop.Moves.{
  InOrder, first-InOrder, push-InOrder, next_turn-InOrder, wake_up-InOrder, between-InOrder,
  take_pending-InOrder,
}

-- The invariant of a system.
abbrev pub IsInOrder : System → Type 0
IsInOrder s = InOrder s.queued s.done s.loop

queue_in_loop-InOrder :
    {queued done : List ℕ} (t f : ℕ) (l : EventLoop)
    → InOrder queued done l
    → is_ended l.state ≡ false
    → InOrder (queued ++ f ∷ []) done (queue_in_loop t f l)
unfolding queue_in_loop wake_after_push
queue_in_loop-InOrder {queued} {done} t f l c e =
    let p = push-InOrder l c f e in
    if_elim (InOrder (queued ++ f ∷ []) done) (is_ended l.state) (λ b. cc)
      (λ b.
        if_elim (InOrder (queued ++ f ∷ []) done) _ (λ b. wake_up-InOrder (push f l) p) (λ b. p))

start_loop-InOrder :
    {queued done : List ℕ} (k : ℕ) (l : EventLoop)
    → InOrder queued done l
    → is_ready l.state ≡ true
    → (m : EventLoop) × (start_loop k false l ≡ some m) × InOrder queued done m
start_loop-InOrder k l c r =
    let on = record l { thread_id = k } in
    (
      next_turn on,
      started,
      next_turn-InOrder on
          (record {
            dropped = c.dropped;
            in_order = c.in_order;
            none_dropped = c.none_dropped;
            in_hand = c.in_hand;
          })
          (ground arith) (ground arith),
    )
  where
    started : start_loop k false l ≡ some (next_turn (record l { thread_id = k }))
    started = unfold start_loop in ground arith

end_loop-InOrder :
    {queued done : List ℕ} (k : ℕ) (l : EventLoop)
    → InOrder queued done l
    → (m : EventLoop) × (end_loop k false l ≡ some m) × InOrder queued done m
unfolding end_loop
end_loop-InOrder {queued} {done} k l c =
    if_elim (λ (n : Option EventLoop). (m : EventLoop) × (n ≡ some m) × InOrder queued done m)
      (is_ready l.state) (λ r. start_loop-InOrder k asked d r)
      (λ r. (
        _,
        refl,
        if_elim (InOrder queued done) (is_ended l.state) (λ e. d) (λ e. wake_up-InOrder asked d),
      ))
  where
    asked : EventLoop
    asked = record l { quit = true }

    d : InOrder queued done asked
    d = record {
      dropped = c.dropped;
      in_order = c.in_order;
      none_dropped = c.none_dropped;
      in_hand = c.in_hand;
    }

module _ (s : System) {t : System} where
  loop_of : (l : EventLoop) → with_loop s l ≡ some t → InOrder s.queued s.done l → IsInOrder t
  loop_of l e c = subst IsInOrder (some-inj (record s { loop = l }) t e) c

  through :
      {m : Option EventLoop} (l : EventLoop)
      → m ≡ some l
      → (elim m [ none ↦ none | some k ↦ with_loop s k ]) ≡ some t
      → with_loop s l ≡ some t
  through l e h = subst (λ m. (elim m [ none ↦ none | some k ↦ with_loop s k ]) ≡ some t) e h

  first_of :
      (fs : List ℕ)
      → s.loop.funcs ≡ fs
      → IsInOrder s
      → is_pending_handling s.loop.state ≡ true
      → run_first_of s fs ≡ some t
      → IsInOrder t
  first_of [] e c p h = cc
  first_of (f ∷ fs) e c p h = subst IsInOrder (some-inj _ t h) (first-InOrder s.loop f fs c e p)

  pushed_of : (f : ℕ) → IsInOrder s → step (push_functor f) s ≡ some t → IsInOrder t
  unfolding step
  pushed_of f c h = elim (Bool-cases (is_ended s.loop.state)) [
    | inl e ↦ subst IsInOrder (some-inj s t (ground arith)) c
    | inr e ↦
        subst IsInOrder
          (some-inj
            (record s {
              loop = push f s.loop;
              between = s.between + 1;
              queued = s.queued ++ f ∷ [];
            })
            t (ground arith))
          (push-InOrder s.loop c f e)
  ]

step-InOrder : (e : Event) (s : System) {t : System} → IsInOrder s → step e s ≡ some t → IsInOrder t
unfolding step
step-InOrder (start k) s c h =
    let (r, g) = guarded (is_ready s.loop.state) _ h in
    let (m, e, d) = start_loop-InOrder k s.loop c r in loop_of s m (through s m e g) d
step-InOrder poll_return s c h =
    let (p, g) = guarded (is_polling s.loop.state) _ h in
    loop_of s (poll_returned s.loop) g (
      unfold poll_returned in
      between-InOrder s.loop c (poll_returned s.loop) refl refl (ground arith) (ground arith))
step-InOrder run_wake s c h =
    let (p, g) = guarded (is_io_handling s.loop.state) _ h in
    loop_of s (run_wake_handler s.loop) g (
      unfold run_wake_handler handle_wake_up in
      between-InOrder s.loop c (run_wake_handler s.loop) (ground arith) (ground arith)
        (ground arith) (ground arith))
step-InOrder take_functors s c h =
    let (p, g) = guarded (is_io_handling s.loop.state && not s.loop.wake_ready) _ h in
    loop_of s (take_pending s.loop) g (take_pending-InOrder s.loop c (ground arith) (ground arith))
step-InOrder run_first s c h =
    let (p, g) = guarded (is_pending_handling s.loop.state) _ h in
    first_of s s.loop.funcs refl c p g
step-InOrder turn s c h =
    let (p, g) = guarded (is_pending_handling s.loop.state && is_none_left s.loop.funcs) _ h in
    loop_of s (next_turn s.loop) g (next_turn-InOrder s.loop c (ground arith) (ground arith))
step-InOrder wake_loop s c h =
    let (p, g) = guarded (ltb 0 s.between) _ h in
    subst IsInOrder (some-inj _ _ g) (wake_up-InOrder s.loop c)
step-InOrder (push_functor f) s c h = pushed_of s f c h
step-InOrder (queue_own f) s c h =
    let (p, g) = guarded (is_io_handling s.loop.state || is_pending_handling s.loop.state) _ h in
    subst IsInOrder (some-inj _ _ g)
      (queue_in_loop-InOrder s.loop.thread_id f s.loop c (ground arith))
step-InOrder (ask_end k) s c h =
    let (m, e, d) = end_loop-InOrder k s.loop c in loop_of s m (through s m e h) d

run-InOrder :
    (es : List Event) (s : System) {t : System} → IsInOrder s → run es s ≡ some t → IsInOrder t
unfolding run
run-InOrder [] s {t} c h = subst IsInOrder (some-inj s t h) c
run-InOrder (e ∷ es) s {t} c h = next (step e s) refl h (λ u. run-InOrder es u)
  where
    next :
        (m : Option System)
        → step e s ≡ m
        → (elim m [ none ↦ none | some u ↦ run es u ]) ≡ some t
        → ((u : System) → IsInOrder u → run es u ≡ some t → IsInOrder t)
        → IsInOrder t
    next none q h k = cc
    next (some u) q h k = k u (step-InOrder e s c q) h

-- However the threads interleave: the functors that the loop ran from its queue, then those that it has
-- in hand and those that wait, are those that came in, each once and in the order in which they came,
-- until the loop ends; and what an ended loop ran is the beginning of what came in.
pub done-in_order :
    (k : ℕ) (es : List Event) {s : System}
    → run es (initial k) ≡ some s
    → (dropped : List ℕ) × (s.done ++ (s.loop.funcs ++ (s.loop.pending ++ dropped)) ≡ s.queued)
      × (is_ended s.loop.state || is_none_left dropped ≡ true)
done-in_order k es {s} h =
    let c = run-InOrder es (initial k) (initial-InOrder k) h in
    (c.dropped, c.in_order, c.none_dropped)
  where
    initial-InOrder : (k : ℕ) → IsInOrder (initial k)
    initial-InOrder k =
        unfold create in
        record { dropped = []; in_order = refl; none_dropped = refl; in_hand = refl }
