-- ===== src/Core/EventLoop/Moves.antt =====
-- src/core/EventLoop.cpp: what each operation does to the order of the functors.
use hohnor.Prelude.{
  ℕ, ◌≡◌, refl, sym, ap, ◌∙◌, true, false, ◌||◌, List, [], ◌∷◌, ◌++◌, append_assoc, append-nil,
  arith, if_elim,
}
use hohnor.Core.EventLoop.{
  EventLoop, is_ended, is_pending_handling, is_none_left, next_turn, finish, take_pending, wake_up,
  push,
}

-- Of the functors that came (`queued`), those run (`done`) are the first and those in the queue follow;
-- the end of the loop drops what is left. Only the handling of the queue has functors in hand.
pub record InOrder (queued done : List ℕ) (l : EventLoop) : Type 0 where
  pub dropped : List ℕ
  pub in_order : done ++ (l.funcs ++ (l.pending ++ dropped)) ≡ queued
  pub none_dropped : is_ended l.state || is_none_left dropped ≡ true
  pub in_hand : is_pending_handling l.state || is_none_left l.funcs ≡ true

none_left : (fs : List ℕ) → is_none_left fs ≡ true → fs ≡ []
none_left [] e = refl
none_left (f ∷ fs) e = ground arith

pushed :
    (d fs ps : List ℕ) (f : ℕ) → d ++ (fs ++ ((ps ++ f ∷ []) ++ [])) ≡ (d ++ (fs ++ ps)) ++ f ∷ []
pushed d fs ps f =
    rw (append-nil (ps ++ f ∷ []), append_assoc d (fs ++ ps) (f ∷ []), append_assoc fs ps (f ∷ []))

module _ {queued done : List ℕ} (l : EventLoop) (c : InOrder queued done l) where
  pub wake_up-InOrder : InOrder queued done (wake_up l)
  unfolding wake_up
  wake_up-InOrder =
      if_elim (InOrder queued done) (is_ended l.state) (λ e. c)
        (λ e. record {
          dropped = c.dropped;
          in_order = c.in_order;
          none_dropped = c.none_dropped;
          in_hand = c.in_hand;
        })

  pub next_turn-InOrder :
      is_ended l.state ≡ false → is_none_left l.funcs ≡ true → InOrder queued done (next_turn l)
  unfolding next_turn finish
  next_turn-InOrder e n =
      if_elim (InOrder queued done) l.quit
        (λ q. record {
          dropped = l.pending ++ c.dropped;
          in_order = c.in_order;
          none_dropped = refl;
          in_hand = n;
        })
        (λ q. record {
          dropped = c.dropped;
          in_order = c.in_order;
          none_dropped = ground arith;
          in_hand = n;
        })

  -- A state of nif_elim the end nor the handling of the queue.
  pub between-InOrder :
      (m : EventLoop)
      → m.funcs ≡ l.funcs
      → m.pending ≡ l.pending
      → is_ended l.state ≡ false
      → is_pending_handling l.state ≡ false
      → InOrder queued done m
  between-InOrder m f p e h = record {
    dropped = c.dropped;
    in_order = rw (f, p) c.in_order;
    none_dropped = ground arith;
    in_hand = ground arith;
  }

  pub take_pending-InOrder :
      is_ended l.state ≡ false
      → is_pending_handling l.state ≡ false
      → InOrder queued done (take_pending l)
  unfolding take_pending
  take_pending-InOrder e h = record {
    dropped = c.dropped;
    in_order =
        sym (ap (λ fs. done ++ (fs ++ (l.pending ++ c.dropped))) (none_left l.funcs (ground arith)))
        ∙ c.in_order;
    none_dropped = ground arith;
    in_hand = refl;
  }

  pub push-InOrder : (f : ℕ) → is_ended l.state ≡ false → InOrder (queued ++ f ∷ []) done (push f l)
  unfolding push
  push-InOrder f e = record {
    dropped = [];
    in_order =
        pushed done l.funcs l.pending f
        ∙ ap (λ q. q ++ f ∷ [])
            (ap (λ p. done ++ (l.funcs ++ p))
                (sym (append-nil l.pending)
                  ∙ ap (◌++◌ l.pending) (sym (none_left c.dropped (ground arith))))
              ∙ c.in_order);
    none_dropped = ground arith;
    in_hand = c.in_hand;
  }

pub first-InOrder :
    {queued done : List ℕ} (l : EventLoop) (f : ℕ) (fs : List ℕ)
    → InOrder queued done l
    → l.funcs ≡ f ∷ fs
    → is_pending_handling l.state ≡ true
    → InOrder queued (done ++ f ∷ []) (record l { funcs = fs })
first-InOrder {queued} {done} l f fs c e h = record {
  dropped = c.dropped;
  in_order =
      append_assoc done (f ∷ []) (fs ++ (l.pending ++ c.dropped))
      ∙ ap (λ x. done ++ (x ++ (l.pending ++ c.dropped))) (sym e)
      ∙ c.in_order;
  none_dropped = c.none_dropped;
  in_hand = ground arith;
}
