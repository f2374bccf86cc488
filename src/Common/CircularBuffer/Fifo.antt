-- ===== src/Common/CircularBuffer/Fifo.antt =====
-- include/hohnor/common/CircularBuffer.h refines a bounded FIFO: `enqueue` appends, `dequeue` takes
-- the oldest item, and both refuse exactly where the queue is full or empty.
use hohnor.Prelude.{
  ℕ, suc, ◌+◌, ◌-◌, ◌%◌, ◌≡◌, refl, sym, ap, ◌∙◌, true, false, Bool-cases, inl, inr, add64, List,
  [], ◌∷◌, ◌++◌, Option, none, some, if◌then◌else◌, ◌==◌, set, get_or, length, length-set, arith,
}
use mathlib.Core.Option
use hohnor.Common.CircularBuffer.{CircularBuffer, enqueue, dequeue, full, empty, size}
use hohnor.Common.CircularBuffer.Contents.{
  IsValid, contents, gather, distance, next_index, next_index_lem, gather-set, gather-snoc,
  length-gather,
}

-- The abstract queue.
abbrev pub push {ℓ} : {A : Type ℓ} → ℕ → List A → A → Option (List A)
push cap q x = if length q == cap then none else some (q ++ x ∷ [])

abbrev pub pop {ℓ} : {A : Type ℓ} → List A → Option (A × List A)
pop [] = none
pop (x ∷ q) = some (x, q)

module _ {ℓ} {A : Type ℓ} (d : A) where
  pub enqueue-IsValid :
      (b : CircularBuffer A) (x : A) {c : CircularBuffer A}
      → IsValid b
      → enqueue b x ≡ some c
      → IsValid c
  unfolding enqueue
  enqueue-IsValid b x v e =
      ground
        (arith, length-set b.buffer b.tail x, next_index_lem b.max_size b.tail v.tail_in v.word)

  full-length :
      (b : CircularBuffer A) → IsValid b → full b ≡ (length (contents d b) == b.max_size - 1)
  unfolding full
  full-length b v = ground (
    arith,
    length-gather d b.buffer b.max_size (distance b.max_size b.head b.tail) b.head,
    next_index_lem b.max_size b.tail v.tail_in v.word,
  )

  grows :
      (b : CircularBuffer A)
      → IsValid b
      → full b ≡ false
      → distance b.max_size b.head (add64 b.tail 1 % b.max_size)
        ≡ suc (distance b.max_size b.head b.tail)
  unfolding full
  grows b v e = ground (arith, next_index_lem b.max_size b.tail v.tail_in v.word)

  -- On a valid ring `enqueue` is the push of a bounded queue: it puts the item behind the contents, and
  -- fails exactly when they are `max_size - 1` already.
  pub enqueue_refines :
      (b : CircularBuffer A) (x : A)
      → IsValid b
      → Option.map (contents d) (enqueue b x) ≡ push (b.max_size - 1) (contents d b) x
  unfolding enqueue
  enqueue_refines b x v = elim (Bool-cases (full b)) [
    | inl e ↦ rw (sym (full-length b v), e)
    | inr e ↦
        rw (sym (full-length b v), e, grows b v e)
          (ap some (
            gather-snoc d b.buffer b.max_size b.tail (distance b.max_size b.head b.tail) b.head x
              v.head_in v.tail_in (omega (arith, v.slots)) refl))
  ]

  pub dequeue-IsValid :
      (b : CircularBuffer A) {x : A} {c : CircularBuffer A}
      → IsValid b
      → dequeue d b ≡ some (x, c)
      → IsValid c
  unfolding dequeue
  dequeue-IsValid b v e =
      ground
        (arith, length-set b.buffer b.head d, next_index_lem b.max_size b.head v.head_in v.word)

  shrunk_empty :
      (b : CircularBuffer A) → IsValid b → empty b ≡ true → distance b.max_size b.head b.tail ≡ 0
  unfolding empty
  shrunk_empty b v e = ground arith

  shrinks :
      (b : CircularBuffer A)
      → IsValid b
      → empty b ≡ false
      → distance b.max_size b.head b.tail
        ≡ suc (distance b.max_size (next_index b.max_size b.head) b.tail)
  unfolding empty
  shrinks b v e = ground arith

  -- Clearing the slot that is given up leaves the others.
  cleared :
      (b : CircularBuffer A)
      → IsValid b
      → empty b ≡ false
      → gather d
          (set b.buffer b.head d)
          b.max_size
          (distance b.max_size (add64 b.head 1 % b.max_size) b.tail)
          (add64 b.head 1 % b.max_size)
        ≡ gather d b.buffer b.max_size
            (distance b.max_size (next_index b.max_size b.head) b.tail)
            (next_index b.max_size b.head)
  unfolding empty
  cleared b v e = rw (next_index_lem b.max_size b.head v.head_in v.word) (
      gather-set d b.buffer b.max_size b.head
        (distance b.max_size (next_index b.max_size b.head) b.tail) (next_index b.max_size b.head) d
        (ground arith) v.head_in (ground arith))

  -- On a valid ring `dequeue` is the pop of a queue: it gives the first of the contents and leaves the
  -- others in order, and fails exactly when there are none.
  pub dequeue_refines :
      (b : CircularBuffer A)
      → IsValid b
      → Option.map (λ (r : A × CircularBuffer A). (r.0, contents d r.1)) (dequeue d b)
        ≡ pop (contents d b)
  unfolding dequeue
  dequeue_refines b v = elim (Bool-cases (empty b)) [
    | inl e ↦ rw (shrunk_empty b v e, e)
    | inr e ↦ rw (shrinks b v e, e) (ap (λ q. some (get_or b.buffer b.head d, q)) (cleared b v e))
  ]

  refused :
      (b : CircularBuffer A) (x : A) {c : CircularBuffer A}
      → full b ≡ true
      → enqueue b x ≡ some c
      → ⊥
  unfolding enqueue
  refused b x f e = ground arith

  pub size-enqueue :
      (b : CircularBuffer A) (x : A) {c : CircularBuffer A}
      → IsValid b
      → enqueue b x ≡ some c
      → size c ≡ size b + 1
  unfolding enqueue size
  size-enqueue b x v e = elim (Bool-cases (full b)) [
    | inl f ↦ absurd (refused b x f e)
    | inr f ↦ ground (arith, grows b v f)
  ]

  pub size-dequeue :
      (b : CircularBuffer A) {x : A} {c : CircularBuffer A}
      → IsValid b
      → dequeue d b ≡ some (x, c)
      → size c + 1 ≡ size b
  unfolding dequeue empty size
  size-dequeue b v e = ground (arith, next_index_lem b.max_size b.head v.head_in v.word)

  pub max_size-enqueue :
      (b : CircularBuffer A) (x : A) {c : CircularBuffer A}
      → enqueue b x ≡ some c
      → c.max_size ≡ b.max_size
  unfolding enqueue
  max_size-enqueue b x e = ground arith

  pub max_size-dequeue :
      (b : CircularBuffer A) {x : A} {c : CircularBuffer A}
      → dequeue d b ≡ some (x, c)
      → c.max_size ≡ b.max_size
  unfolding dequeue
  max_size-dequeue b e = ground arith

  pub enqueue_room :
      (b : CircularBuffer A) (x : A)
      → full b ≡ false
      → (c : CircularBuffer A) × (enqueue b x ≡ some c)
  unfolding enqueue
  enqueue_room b x f =
      (record b { buffer = set b.buffer b.tail x; tail = add64 b.tail 1 % b.max_size }, rw f)

  pub dequeue_item :
      (b : CircularBuffer A)
      → empty b ≡ false
      → (x : A) × (c : CircularBuffer A) × (dequeue d b ≡ some (x, c))
  unfolding dequeue
  dequeue_item b f = (
    get_or b.buffer b.head d,
    record b { buffer = set b.buffer b.head d; head = add64 b.head 1 % b.max_size },
    rw f,
  )

  push-eq-some : (cap : ℕ) (q r : List A) (x : A) → push cap q x ≡ some r → r ≡ q ++ x ∷ []
  push-eq-some cap q r x h = elim (Bool-cases (length q == cap)) [
    | inl e ↦ absurd (none_not_some r (rw e at h))
    | inr e ↦ inside r (rw e at h)
  ]
    where
      none_not_some : (r : List A) → none ≡ some r → ⊥
      none_not_some r h = cc

      inside : (r : List A) → some (q ++ x ∷ []) ≡ some r → r ≡ q ++ x ∷ []
      inside r h = cc

  pop-eq-some : (q r : List A) (x : A) → some (x, r) ≡ pop q → q ≡ x ∷ r
  pop-eq-some [] r x h = cc
  pop-eq-some (y ∷ q) r x h = cc

  pub contents-enqueue :
      (b : CircularBuffer A) (x : A) {c : CircularBuffer A}
      → IsValid b
      → enqueue b x ≡ some c
      → contents d c ≡ contents d b ++ x ∷ []
  contents-enqueue b x {c} v e =
      push-eq-some (b.max_size - 1) (contents d b) (contents d c) x
        (sym (enqueue_refines b x v) ∙ ap (Option.map (contents d)) e)

  pub contents-dequeue :
      (b : CircularBuffer A) {x : A} {c : CircularBuffer A}
      → IsValid b
      → dequeue d b ≡ some (x, c)
      → contents d b ≡ x ∷ contents d c
  contents-dequeue b {x} {c} v e = pop-eq-some (contents d b) (contents d c) x (
      sym (ap (Option.map (λ (r : A × CircularBuffer A). (r.0, contents d r.1))) e)
      ∙ dequeue_refines b v)
