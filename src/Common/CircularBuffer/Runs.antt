-- ===== src/Common/CircularBuffer/Runs.antt =====
-- include/hohnor/common/CircularBuffer.h: a ring in use answers as a bounded FIFO does.
use hohnor.Prelude.{
  ℕ, ◌+◌, ◌<◌, ◌≡◌, refl, sym, ap, ap₂, ◌∙◌, List, [], ◌∷◌, Option, none, some, length, u64_mod,
  arith,
}
use mathlib.Core.Option
use hohnor.Common.CircularBuffer.{CircularBuffer, create, enqueue, dequeue, size}
use hohnor.Common.CircularBuffer.Contents.{IsValid, contents, size-contents, create-IsValid}
use hohnor.Common.CircularBuffer.Fifo.{
  push, pop, enqueue_refines, dequeue_refines, enqueue-IsValid, dequeue-IsValid, max_size-enqueue,
  max_size-dequeue,
}

pub data Op {ℓ} (A : Type ℓ) : Type ℓ where
  puts : A → Op A
  gets : Op A

-- What a call comes to: a thrown error, which leaves the ring as it is, or a return.
pub data Answer {ℓ} (A : Type ℓ) : Type ℓ where
  throws done : Answer A
  gives : A → Answer A

module _ {ℓ} {A : Type ℓ} where
  abbrev pub after_put {κ} : {S : Type κ} → S → Option S → Answer A × S
  after_put s none = (throws, s)
  after_put s (some t) = (done, t)

  abbrev pub after_get {κ} : {S : Type κ} → S → Option (A × S) → Answer A × S
  after_get s none = (throws, s)
  after_get s (some (x, t)) = (gives x, t)

  abbrev pub ring_step : A → CircularBuffer A → Op A → Answer A × CircularBuffer A
  ring_step d b (puts x) = after_put b (enqueue b x)
  ring_step d b gets = after_get b (dequeue d b)

  abbrev pub fifo_step : ℕ → List A → Op A → Answer A × List A
  fifo_step cap q (puts x) = after_put q (push cap q x)
  fifo_step cap q gets = after_get q (pop q)

  unfoldable pub ring_run : A → CircularBuffer A → List (Op A) → List (Answer A) × CircularBuffer A
  ring_run d b [] = ([], b)
  ring_run d b (o ∷ os) =
      let (a, c) = ring_step d b o in let (as', e) = ring_run d c os in (a ∷ as', e)

  unfoldable pub fifo_run : ℕ → List A → List (Op A) → List (Answer A) × List A
  fifo_run cap q [] = ([], q)
  fifo_run cap q (o ∷ os) =
      let (a, r) = fifo_step cap q o in let (as', e) = fifo_run cap r os in (a ∷ as', e)

module _ {ℓ} {A : Type ℓ} (d : A) (cap : ℕ) where
  -- The ring stands for the queue.
  record StandsFor (b : CircularBuffer A) (q : List A) : Type ℓ where
    valid : IsValid b
    bound : b.max_size ≡ cap + 1
    same : contents d b ≡ q

  abbrev Agrees : Answer A × CircularBuffer A → Answer A × List A → Type ℓ
  Agrees (a, b) (a', q) = (a ≡ a') × StandsFor b q

  put-Agrees :
      (b : CircularBuffer A) (q : List A) (x : A) (r : Option (CircularBuffer A))
      → StandsFor b q
      → enqueue b x ≡ r
      → Option.map (contents d) r ≡ push cap q x
      → Agrees (after_put b r) (after_put q (push cap q x))
  put-Agrees b q x none s e h = rw (sym h) (refl, s)
  put-Agrees b q x (some c) s e h = rw (sym h) (
    refl,
    record {
      valid = enqueue-IsValid d b x s.valid e;
      bound = max_size-enqueue d b x e ∙ s.bound;
      same = refl;
    },
  )

  get-Agrees :
      (b : CircularBuffer A) (q : List A) (r : Option (A × CircularBuffer A))
      → StandsFor b q
      → dequeue d b ≡ r
      → Option.map (λ (p : A × CircularBuffer A). (p.0, contents d p.1)) r ≡ pop q
      → Agrees (after_get b r) (after_get q (pop q))
  get-Agrees b q none s e h = rw (sym h) (refl, s)
  get-Agrees b q (some (x, c)) s e h = rw (sym h) (
    refl,
    record {
      valid = dequeue-IsValid d b s.valid e;
      bound = max_size-dequeue d b e ∙ s.bound;
      same = refl;
    },
  )

  step-Agrees :
      (b : CircularBuffer A) (q : List A) (o : Op A)
      → StandsFor b q
      → Agrees (ring_step d b o) (fifo_step cap q o)
  step-Agrees b q (puts x) s =
      put-Agrees b q x (enqueue b x) s refl
        (enqueue_refines d b x s.valid ∙ ap₂ (λ n l. push n l x) (omega (arith, s.bound)) s.same)
  step-Agrees b q gets s =
      get-Agrees b q (dequeue d b) s refl (dequeue_refines d b s.valid ∙ ap pop s.same)

  run-Agrees :
      (b : CircularBuffer A) (q : List A) (os : List (Op A))
      → StandsFor b q
      → ((ring_run d b os).0 ≡ (fifo_run cap q os).0)
        × StandsFor (ring_run d b os).1 (fifo_run cap q os).1
  unfolding ring_run fifo_run
  run-Agrees b q [] s = (refl, s)
  run-Agrees b q (o ∷ os) s =
      let (e, t) = step-Agrees b q o s in
      let (f, u) = run-Agrees (ring_step d b o).1 (fifo_step cap q o).1 os t in (ap₂ ◌∷◌ e f, u)

  -- A new ring for `cap` items and an empty queue of that bound give the same answers to every sequence of
  -- calls, item for item and error for error: `enqueue` throws exactly where `cap` items are there, and
  -- `dequeue` exactly where none is. At the end the ring holds the items of the queue, and `size` counts them.
  pub run_refines :
      (b : CircularBuffer A) (os : List (Op A))
      → cap + 1 < u64_mod
      → create d cap ≡ some b
      → ((ring_run d b os).0 ≡ (fifo_run cap [] os).0)
        × (contents d (ring_run d b os).1 ≡ (fifo_run cap [] os).1)
        × (size (ring_run d b os).1 ≡ length (fifo_run cap [] os).1)
  run_refines b os w e =
      let (v, c, m) = create-IsValid d cap w e in
      let (f, s) = run-Agrees b [] os (record { valid = v; bound = m; same = c }) in
      (f, s.same, size-contents d (ring_run d b os).1 s.valid ∙ ap length s.same)
