-- ===== src/Thread/BoundedBlockingQueue/History.antt =====
-- include/hohnor/thread/BoundedBlockingQueue.h: items come out in the order in which they went in.
use mathlib.Core.List.{reverse, reverse-cons}
use hohnor.Prelude.{
  ℕ, ◌+◌, ◌-◌, ◌<◌, subst, ◌≡◌, refl, sym, List, [], ◌∷◌, ◌++◌, append_assoc, Option, none, some,
  Bool-cases, inl, inr, ltb, u64_mod,
}
use hohnor.Common.CircularBuffer.{CircularBuffer}
use hohnor.Common.CircularBuffer.Contents
use hohnor.Common.CircularBuffer.Contents.{contents, create-IsValid}
use hohnor.Common.CircularBuffer.Fifo.{contents-enqueue, contents-dequeue}
use hohnor.Thread.BoundedBlockingQueue.{
  BoundedBlockingQueue, System, Event, put_call, put_again, take_call, take_again, give_up_call,
  spurious_put, spurious_take, put, take, init, step, run, after_put, after_take,
}
use hohnor.Thread.BoundedBlockingQueue.Waiters.{
  IsLive, Putting, Taking, put-Putting, take-Taking, step-IsLive, idle, init-IsLive, init-create,
  same_state,
}

module _ {ℓ} {A : Type ℓ} (item : A) where
  -- What went in is what came out, then what the ring holds.
  abbrev pub InOrder : System A → Type ℓ
  InOrder s = reverse s.stored ≡ reverse s.taken ++ contents item s.queue

  abbrev pub KeepsOrder : Option (System A) → Type ℓ
  KeepsOrder none = Unit
  KeepsOrder (some t) = InOrder t

  stored-InOrder :
      (s : System A) (x : A) (c : CircularBuffer A)
      → contents item c ≡ contents item s.queue ++ x ∷ []
      → InOrder s
      → reverse (x ∷ s.stored) ≡ reverse s.taken ++ contents item c
  stored-InOrder s x c h o =
      rw (reverse-cons x s.stored, o, h)
        (append_assoc (reverse s.taken) (contents item s.queue) (x ∷ []))

  taken-InOrder :
      (s : System A) (x : A) (c : CircularBuffer A)
      → contents item s.queue ≡ x ∷ contents item c
      → InOrder s
      → reverse s.stored ≡ reverse (x ∷ s.taken) ++ contents item c
  taken-InOrder s x c h o =
      rw (reverse-cons x s.taken, o, h)
        (sym (append_assoc (reverse s.taken) (x ∷ []) (contents item c)))

  after_put-KeepsOrder :
      (s : System A) (x : A)
      → Contents.IsValid s.queue
      → Putting s.base x (put s.base x)
      → InOrder s
      → KeepsOrder (after_put s x (put s.base x))
  after_put-KeepsOrder s x v (Putting.waits r e h) o = rw r o
  after_put-KeepsOrder s x v (Putting.refuses r e) o = rw r o
  after_put-KeepsOrder s x v (Putting.stores c r e h m) o =
      let q = stored-InOrder s x c (contents-enqueue item s.queue x v h) o in
      elim (Bool-cases (ltb 0 s.waiting_take)) [ inl w ↦ rw (r, w) q | inr w ↦ rw (r, w) q ]

  after_take-KeepsOrder :
      (s : System A)
      → Contents.IsValid s.queue
      → Taking item s.base (take item s.base)
      → InOrder s
      → KeepsOrder (after_take s (take item s.base))
  after_take-KeepsOrder s v (Taking.waits r e h) o = rw r o
  after_take-KeepsOrder s v (Taking.gives_default r e) o = rw r o
  after_take-KeepsOrder s v (Taking.gives x c r e h m) o =
      let q = taken-InOrder s x c (contents-dequeue item s.queue v h) o in
      elim (Bool-cases (ltb 0 s.waiting_put)) [ inl w ↦ rw (r, w) q | inr w ↦ rw (r, w) q ]

  pub step-KeepsOrder :
      (s : System A) (e : Event A) → IsLive s → InOrder s → KeepsOrder (step item s e)
  unfolding step
  step-KeepsOrder s (put_call x) l o =
      after_put-KeepsOrder s x l.valid (put-Putting s.base x l.valid) o
  step-KeepsOrder s (put_again x) l o = elim (Bool-cases (ltb 0 s.ready_put)) [
    | inl w ↦ rw w (
        after_put-KeepsOrder (record s { ready_put = s.ready_put - 1 }) x l.valid
          (put-Putting s.base x l.valid) o)
    | inr w ↦ rw w o
  ]
  step-KeepsOrder s take_call l o =
      after_take-KeepsOrder s l.valid (take-Taking item s.base l.valid) o
  step-KeepsOrder s take_again l o = elim (Bool-cases (ltb 0 s.ready_take)) [
    | inl w ↦ rw w (
        after_take-KeepsOrder (record s { ready_take = s.ready_take - 1 }) l.valid
          (take-Taking item s.base l.valid) o)
    | inr w ↦ rw w o
  ]
  step-KeepsOrder s give_up_call l o = o
  step-KeepsOrder s spurious_put l o = elim (Bool-cases (ltb 0 s.waiting_put)) [
    | inl w ↦ rw w o
    | inr w ↦ rw w o
  ]
  step-KeepsOrder s spurious_take l o = elim (Bool-cases (ltb 0 s.waiting_take)) [
    | inl w ↦ rw w o
    | inr w ↦ rw w o
  ]

  run-InOrder :
      (s : System A) (es : List (Event A)) (t : System A)
      → IsLive s
      → InOrder s
      → run item s es ≡ some t
      → InOrder t
  unfolding run
  run-InOrder s [] t l o r = subst InOrder (same_state s t refl r) o
  run-InOrder s (e ∷ es) t l o r =
      let (u, h, k) = step-IsLive item s e l in
      run-InOrder u es t k (rw h at (step-KeepsOrder s e l o)) (rw (h, run) at r)

  -- On every schedule the items taken, oldest first, followed by those still in the ring, are the
  -- items stored, oldest first: nothing is lost, doubled or reordered.
  pub run_in_order :
      (max_size : ℕ) (q : BoundedBlockingQueue A) (es : List (Event A)) (t : System A)
      → max_size + 1 < u64_mod
      → init item max_size ≡ some q
      → run item (idle q) es ≡ some t
      → reverse t.stored ≡ reverse t.taken ++ contents item t.queue
  unfolding idle
  run_in_order max_size q es t w h r =
      run-InOrder (idle q) es t (init-IsLive item max_size q w h)
        (sym (create-IsValid item max_size w (init-create item max_size q h).0).1) r
