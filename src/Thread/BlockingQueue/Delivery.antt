-- ===== src/Thread/BlockingQueue/Delivery.antt =====
-- include/hohnor/thread/BlockingQueue.h: every item is handed over, in order, and no taker is forgotten.
use hohnor.Prelude.{
  ◌+◌, ◌-◌, ◌<◌, ◌≡◌, refl, sym, ap, ◌∙◌, ◌⊎◌, inl, inr, true, false, not, ◌||◌, List, [], ◌∷◌,
  ◌++◌, arith, ◌==◌, ltb, leb, Bool-cases, length, length-append, append_assoc, if_elim,
}
use hohnor.Thread.BlockingQueue.{
  BlockingQueue, create, put, take, give_up, take_of, size, Event, put_call, take_call, take_again,
  give_up_call, spurious, step, run,
}

module _ {ℓ} {A : Type ℓ} where
  -- While takers sleep, each item has a woken taker on its way; after `giveUp` none sleeps. The items
  -- that came are those taken and those in the queue.
  pub record Delivers (q : BlockingQueue A) : Type ℓ where
    pub enough : (q.waiting == 0) || leb (length q.queue) q.ready ≡ true
    pub awake : not q.end_ || (q.waiting == 0) ≡ true
    pub in_order : q.taken ++ q.queue ≡ q.stored

  pub put-Delivers : (x : A) (q : BlockingQueue A) → Delivers q → Delivers (put x q)
  unfolding put
  put-Delivers x q d =
      if_elim Delivers (ltb 0 q.waiting)
        (λ t. record {
          enough = ground (arith, d.enough, length-append q.queue (x ∷ []));
          awake = ground (arith, d.awake);
          in_order = joined;
        })
        (λ f. record { enough = ground arith; awake = d.awake; in_order = joined })
    where
      joined : q.taken ++ (q.queue ++ x ∷ []) ≡ q.stored ++ x ∷ []
      joined = sym (append_assoc q.taken q.queue (x ∷ [])) ∙ ap (λ l. l ++ x ∷ []) d.in_order

  -- A take by a thread that is not counted as ready any more.
  take-Delivers :
      (q : BlockingQueue A)
      → ((q.waiting == 0) || leb (length q.queue) (q.ready + 1)) ≡ true
      → not q.end_ || (q.waiting == 0) ≡ true
      → q.taken ++ q.queue ≡ q.stored
      → Delivers (take q)
  unfolding take
  take-Delivers q e a o =
      if_elim Delivers q.end_ (λ t. record { enough = ground arith; awake = a; in_order = o })
        (λ f. by_queue q.queue refl f)
    where
      by_queue : (xs : List A) → q.queue ≡ xs → q.end_ ≡ false → Delivers (take_of q xs)
      by_queue [] h f = record {
        enough = ground (arith, ap length h);
        awake = ground arith;
        in_order = o;
      }
      by_queue (x ∷ xs) h f = record {
        enough = ground (arith, ap length h);
        awake = a;
        in_order = append_assoc q.taken (x ∷ []) xs ∙ ap (◌++◌ q.taken) (sym h) ∙ o;
      }

  pub step-Delivers : (q : BlockingQueue A) (e : Event A) → Delivers q → Delivers (step q e)
  unfolding step give_up
  step-Delivers q (put_call x) d = put-Delivers x q d
  step-Delivers q take_call d = take-Delivers q (ground (arith, d.enough)) d.awake d.in_order
  step-Delivers q take_again d =
      if_elim Delivers (ltb 0 q.ready)
        (λ t.
          take-Delivers (record q { ready = q.ready - 1 }) (ground (arith, d.enough)) d.awake
            d.in_order)
        (λ f. d)
  step-Delivers q give_up_call d = record {
    enough = refl;
    awake = ground arith;
    in_order = d.in_order;
  }
  step-Delivers q spurious d =
      if_elim Delivers (ltb 0 q.waiting)
        (λ t. record {
          enough = ground (arith, d.enough);
          awake = ground (arith, d.awake);
          in_order = d.in_order;
        })
        (λ f. d)

  run-Delivers : (q : BlockingQueue A) (es : List (Event A)) → Delivers q → Delivers (run q es)
  unfolding run
  run-Delivers q [] d = d
  run-Delivers q (e ∷ es) d = run-Delivers (step q e) es (step-Delivers q e d)

  -- On every schedule of a new queue: the items taken, in order, and those still in the queue are the
  -- items put; and when no woken taker is on its way, a taker sleeps only if the queue is empty and
  -- `giveUp` has not been called.
  pub run-delivers :
      (es : List (Event A))
      → ((run create es).taken ++ (run create es).queue ≡ (run create es).stored)
        × (((run create es).waiting ≡ 0)
            ⊎ (0 < (run create es).ready)
            ⊎ ((size (run create es) ≡ 0) × ((run create es).end_ ≡ false)))
  unfolding size
  run-delivers es = let d = run-Delivers create es fresh in (d.in_order, by_state (run create es) d)
    where
      fresh : Delivers create
      fresh = unfold create in record { enough = refl; awake = refl; in_order = refl }

      by_state :
          (q : BlockingQueue A)
          → Delivers q
          → (q.waiting ≡ 0) ⊎ (0 < q.ready) ⊎ ((length q.queue ≡ 0) × (q.end_ ≡ false))
      by_state q d = elim (Bool-cases (q.waiting == 0)) [
        | inl t ↦ inl (ground arith)
        | inr f ↦ elim (Bool-cases (ltb 0 q.ready)) [
          | inl t ↦ inr (inl (ground arith))
          | inr g ↦ inr (inr (ground (arith, d.enough), ground (arith, d.awake)))
        ]
      ]
