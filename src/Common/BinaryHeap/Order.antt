-- ===== src/Common/BinaryHeap/Order.antt =====
-- include/hohnor/common/BinaryHeap.h against its contract: a queue whose top is the least item.
use hohnor.Prelude.{
  ℕ, zero, suc, ◌+◌, ◌<◌, ◌≡◌, ◌≢◌, refl, sym, ap, ap₂, ◌∙◌, ◌⊎◌, inl, inr, Bool, true, false, not,
  ◌&&◌, ◌||◌, List, [], ◌∷◌, ◌++◌, some, length, get_or, ◌==◌, arith, length-append, dec_lt,
}
use hohnor.Common.BinaryHeap.{parent, insert, percolate_up, percolate_up_loop}
use hohnor.Common.BinaryHeap.Items.{
  count, count-set, count-append, get_or-any, get_or-append, get_or-append_last, one_if,
}
use hohnor.Common.BinaryHeap.Path.{IsOrder, Heap, Up, by_values, parent-lt}
use hohnor.Common.BinaryHeap.Loops.{percolate_up_loop-Sifted}

module _ {ℓ} {A : Type ℓ} (less : A → A → Bool) where
  -- Whether none of the first `n` items is less than its parent.
  abbrev pub are_ordered : A → List A → ℕ → Bool
  are_ordered d v zero = true
  are_ordered d v (suc n) =
      ((n == 0) || not (less (get_or v n d) (get_or v (parent n) d))) && are_ordered d v n

  abbrev pub is_heap : List A → Bool
  is_heap [] = true
  is_heap (x ∷ xs) = are_ordered x (x ∷ xs) (length (x ∷ xs))

  &&-both : (a b : Bool) → a && b ≡ true → (a ≡ true) × (b ≡ true)
  &&-both true b h = (refl, h)
  &&-both false b h = cc

  first_or : (n : ℕ) (l : Bool) → 0 < n → (n == 0) || not l ≡ true → l ≡ false
  first_or n l p h = ground arith

  or_first : (n : ℕ) (l : Bool) → (n ≡ 0) ⊎ (l ≡ false) → (n == 0) || not l ≡ true
  or_first n l (inl z) = ground arith
  or_first n l (inr h) = ground arith

  are_ordered-at :
      (d : A) (v : List A) (n i : ℕ)
      → are_ordered d v n ≡ true
      → 0 < i
      → i < n
      → less (get_or v i d) (get_or v (parent i) d) ≡ false
  are_ordered-at d v zero i h p q = absurd (omega arith)
  are_ordered-at d v (suc n) i h p q =
      let (a, b) =
        &&-both ((n == 0) || not (less (get_or v n d) (get_or v (parent n) d))) (are_ordered d v n)
          h in
      elim (dec_lt i n) [
        | yes l ↦ are_ordered-at d v n i b p l
        | no m ↦
            let e : n ≡ i = omega arith in
            ap (λ k. less (get_or v k d) (get_or v (parent k) d)) (sym e)
            ∙ first_or n (less (get_or v n d) (get_or v (parent n) d)) (omega (arith, e, p)) a
      ]

  are_ordered-all :
      (d : A) (v : List A) (n : ℕ)
      → ((i : ℕ) → 0 < i → i < n → less (get_or v i d) (get_or v (parent i) d) ≡ false)
      → are_ordered d v n ≡ true
  are_ordered-all d v zero k = refl
  are_ordered-all d v (suc zero) k = refl
  are_ordered-all d v (suc (suc n)) k =
      let a =
        or_first (suc n) (less (get_or v (suc n) d) (get_or v (parent (suc n)) d))
          (inr (k (suc n) (omega arith) (omega arith))) in
      let b = are_ordered-all d v (suc n) (λ i p q. k i p (omega (arith, q))) in ap₂ ◌&&◌ a b

  -- An item of a heap against its parent, whatever the default of `get_or`.
  pub is_heap-at :
      (v : List A) (d : A) (i : ℕ)
      → is_heap v ≡ true
      → 0 < i
      → i < length v
      → less (get_or v i d) (get_or v (parent i) d) ≡ false
  is_heap-at [] d i h p q = absurd (omega arith)
  is_heap-at (x ∷ xs) d i h p q =
      ap₂ less (get_or-any (x ∷ xs) i d x q)
        (get_or-any (x ∷ xs) (parent i) d x (omega (arith, parent-below i p, q)))
      ∙ are_ordered-at x (x ∷ xs) (length (x ∷ xs)) i h p q
    where
      parent-below : (i : ℕ) → 0 < i → parent i < i
      parent-below i p = ground arith

module _ {ℓ} {A : Type ℓ} (less : A → A → Bool) (o : IsOrder less) where
  pub Heap-is_heap : (d : A) (v : List A) → Heap less o d v → is_heap less v ≡ true
  Heap-is_heap d [] h = refl
  Heap-is_heap d (x ∷ xs) h = are_ordered-all less x (x ∷ xs) (length (x ∷ xs)) λ i p q.
      by_values less o (get_or-any (x ∷ xs) i x d q)
        (get_or-any (x ∷ xs) (parent i) x d (omega (arith, parent-lt less o i p, q)))
        (h.ordered i p q)

  added-Up : (x : A) (v : List A) → is_heap less v ≡ true → Up less o (length v) x (v ++ x ∷ [])
  added-Up x v h = record {
    others = λ i p q n k.
        by_values less o (get_or-append v x i x (before i q n))
          (get_or-append v x (parent i) x (omega (arith, parent-lt less o i p, before i q n)))
          (is_heap-at less v x i h p (before i q n));
    above =
        λ i p q e z. absurd (omega (arith, parent-lt less o i p, e, q, length-append v (x ∷ [])));
    below = λ i p q e. absurd (omega (arith, parent-lt less o i p, e, q, length-append v (x ∷ [])));
  }
    where
      before : (i : ℕ) → i < length (v ++ x ∷ []) → i ≢ length v → i < length v
      before i q n = omega (arith, q, n, length-append v (x ∷ []))

  -- `insert` into a heap ends with a heap of the same items and the new one.
  pub insert-is_heap :
      (f : A → Bool) (x : A) (v : List A)
      → is_heap less v ≡ true
      → (w : List A) × (insert less x v ≡ some w)
        × (is_heap less w ≡ true)
        × (count f w ≡ one_if (f x) + count f v)
  unfolding insert percolate_up
  insert-is_heap f x v h =
      let size = length-append v (x ∷ []) in
      let (w, e, s) =
        percolate_up_loop-Sifted less o f (length (v ++ x ∷ [])) (length v) x (v ++ x ∷ [])
          (omega (arith, size)) (omega (arith, size)) (added-Up x v h) in
      (
        w,
        ap (λ i. percolate_up_loop less (length (v ++ x ∷ [])) i x (v ++ x ∷ []))
              (omega (arith, size))
            ∙ e,
        Heap-is_heap x w s.heap,
        omega (
          arith,
          s.items,
          count-set f (v ++ x ∷ []) (length v) x x (omega (arith, size)),
          ap (λ y. one_if (f y)) (get_or-append_last v x x),
          count-append f v x,
        ),
      )
