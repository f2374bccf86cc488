-- ===== src/Core/EventLoop/Turn.antt =====
-- src/core/EventLoop.cpp: a woken loop runs all that waits in one turn, and an asked one ends with it.
use hohnor.Prelude.{
  ℕ, ◌≡◌, refl, sym, ap, ◌∙◌, Bool, false, List, [], ◌∷◌, ◌++◌, append_assoc, append-nil, none,
  some, arith, ◌==◌, if◌then◌else◌,
}
use hohnor.Core.EventLoop.{
  EventLoop, polling, pending_handling, ended, System, Event, poll_return, run_wake, take_functors,
  run_first, turn, step, run, next_turn, finish, poll_returned, run_wake_handler, handle_wake_up,
  take_pending, run_in_loop, run_in_pool, queue_in_loop, wake_up, start_loop,
}

-- The events of a turn in which the queue has these functors.
abbrev pub run_all : List ℕ → List Event
run_all [] = turn ∷ []
run_all (f ∷ fs) = run_first ∷ run_all fs

abbrev pub whole_turn : List ℕ → List Event
whole_turn fs = poll_return ∷ run_wake ∷ take_functors ∷ run_all fs

run-next :
    (e : Event) (es : List Event) (s : System) {u : System}
    → step e s ≡ some u
    → run (e ∷ es) s ≡ run es u
unfolding run
run-next e es s h = ap (λ m. elim m [ none ↦ none | some t ↦ run es t ]) h

step-turn :
    (s : System)
    → s.loop.state ≡ pending_handling
    → s.loop.funcs ≡ []
    → step turn s ≡ some (record s { loop = next_turn s.loop })
unfolding step
step-turn s p f = ground arith

step-run_first :
    (s : System) (g : ℕ) (gs : List ℕ)
    → s.loop.state ≡ pending_handling
    → s.loop.funcs ≡ g ∷ gs
    → step run_first s
      ≡ some (record s { loop = record s.loop { funcs = gs }; done = s.done ++ g ∷ [] })
unfolding step
step-run_first s g gs p f = ground arith

next_turn_lem :
    (l : EventLoop)
    → l.pending ≡ []
    → ((next_turn l).funcs ≡ l.funcs)
      × ((next_turn l).pending ≡ [])
      × ((next_turn l).state ≡ (if l.quit then ended else polling))
unfolding next_turn finish
next_turn_lem l w = ground arith

-- What a turn leaves, from a system whose loop was asked to quit or not.
pub record Turned (s t : System) (fs : List ℕ) : Type 0 where
  pub ran : t.done ≡ s.done ++ fs
  pub none_in_hand : t.loop.funcs ≡ []
  pub none_waits : t.loop.pending ≡ []
  pub phase : t.loop.state ≡ (if s.loop.quit then ended else polling)

run_all_lem :
    (fs : List ℕ) (s : System)
    → s.loop.state ≡ pending_handling
    → s.loop.funcs ≡ fs
    → s.loop.pending ≡ []
    → (t : System) × (run (run_all fs) s ≡ some t) × Turned s t fs
run_all_lem [] s p f w =
    let (a, b, c) = next_turn_lem s.loop w in
    (
      record s { loop = next_turn s.loop },
      run-next turn [] s (step-turn s p f) ∙ unfold run in refl,
      record { ran = sym (append-nil s.done); none_in_hand = a ∙ f; none_waits = b; phase = c },
    )
run_all_lem (g ∷ gs) s p f w =
    let u = record s { loop = record s.loop { funcs = gs }; done = s.done ++ g ∷ [] } in
    let (t, e, r) = run_all_lem gs u p refl w in
    (
      t,
      run-next run_first (run_all gs) s (step-run_first s g gs p f) ∙ e,
      record {
        ran = r.ran ∙ append_assoc s.done (g ∷ []) gs;
        none_in_hand = r.none_in_hand;
        none_waits = r.none_waits;
        phase = r.phase;
      },
    )

-- The loop as `poll` left it, the eventfd handled, with the queue taken.
abbrev polled : System → System
polled s = record s { loop = poll_returned s.loop }

abbrev woken : System → System
woken s = record s { loop = run_wake_handler (poll_returned s.loop) }

abbrev taken : System → System
taken s = record s { loop = take_pending (run_wake_handler (poll_returned s.loop)) }

step-poll_return : (s : System) → s.loop.state ≡ polling → step poll_return s ≡ some (polled s)
unfolding step
step-poll_return s p = ground arith

step-run_wake : (s : System) → step run_wake (polled s) ≡ some (woken s)
unfolding step poll_returned
step-run_wake s = refl

step-take_functors : (s : System) → step take_functors (woken s) ≡ some (taken s)
unfolding step run_wake_handler handle_wake_up poll_returned take_pending
step-take_functors s = ground arith

taken_lem :
    (s : System)
    → ((taken s).loop.state ≡ pending_handling)
      × ((taken s).loop.funcs ≡ s.loop.pending)
      × ((taken s).loop.pending ≡ [])
      × ((taken s).loop.quit ≡ s.loop.quit)
unfolding take_pending run_wake_handler handle_wake_up poll_returned
taken_lem s = ground arith

-- When the wait of a polling loop returns and nobody queues more, the turn runs every functor that waits,
-- in order, and empties the queue; then the loop waits again, or it ends if `endLoop` has asked for it.
pub run-whole_turn :
    (s : System)
    → s.loop.state ≡ polling
    → (t : System) × (run (whole_turn s.loop.pending) s ≡ some t) × Turned s t s.loop.pending
run-whole_turn s p =
    let (a, b, c, q) = taken_lem s in
    let (t, e, r) = run_all_lem s.loop.pending (taken s) a b c in
    (
      t,
      run-next poll_return (run_wake ∷ take_functors ∷ run_all s.loop.pending) s
            (step-poll_return s p)
          ∙ run-next run_wake (take_functors ∷ run_all s.loop.pending) (polled s) (step-run_wake s)
          ∙ run-next take_functors (run_all s.loop.pending) (woken s) (step-take_functors s)
          ∙ e,
      record {
        ran = r.ran;
        none_in_hand = r.none_in_hand;
        none_waits = r.none_waits;
        phase = r.phase ∙ ap (λ b. if b then ended else polling) q;
      },
    )

-- A loop that has ended takes nothing more: `queueInLoop`, `runInLoop` and `runInPool` of another thread
-- and `wakeUp` leave it as it is and run nothing, and a `loop()` returns at once.
ended-refuses :
    (t f : ℕ) (other : Bool) (l : EventLoop)
    → l.state ≡ ended
    → (t == l.thread_id) ≡ false
    → (queue_in_loop t f l ≡ l)
      × (run_in_loop t f l ≡ (l, false))
      × (run_in_pool t f l ≡ (l, false))
      × (wake_up l ≡ l)
      × (start_loop t other l ≡ some l)
unfolding queue_in_loop run_in_loop run_in_pool wake_up start_loop
ended-refuses t f other l e n = ground arith
