-- ===== src/Common/BinaryHeap/Least.antt =====
-- include/hohnor/common/BinaryHeap.h: `popTop` gives the least item and keeps the others.
use hohnor.Prelude.{
  ℕ, zero, suc, ◌+◌, ◌<◌, ◌≡◌, refl, ap, Bool, true, false, List, [], ◌∷◌, none, some, length,
  get_or, take, arith, length-take,
}
use hohnor.Common.BinaryHeap.{parent, percolate_down, pop_top}
use hohnor.Common.BinaryHeap.Items.{count, one_if}
use hohnor.Common.BinaryHeap.Path.{IsOrder, by_values, parent-lt}
use hohnor.Common.BinaryHeap.Sift.{Down, irrefl}
use hohnor.Common.BinaryHeap.Loops.{percolate_down_loop-Sifted}
use hohnor.Common.BinaryHeap.Order.{is_heap, is_heap-at, Heap-is_heap}

module _ {ℓ} {A : Type ℓ} where
  count-none :
      (f : A → Bool) (v : List A) (d : A)
      → ((i : ℕ) → i < length v → f (get_or v i d) ≡ false)
      → count f v ≡ 0
  count-none f [] d k = refl
  count-none f (x ∷ xs) d k = omega (
    arith,
    ap one_if (k 0 (omega arith)),
    count-none f xs d (λ i q. k (suc i) (omega (arith, q))),
  )

  get_or-take : (n : ℕ) (v : List A) (i : ℕ) (d : A) → i < n → get_or (take n v) i d ≡ get_or v i d
  get_or-take zero v i d h = absurd (omega arith)
  get_or-take (suc n) [] i d h = refl
  get_or-take (suc n) (x ∷ xs) zero d h = refl
  get_or-take (suc n) (x ∷ xs) (suc i) d h = get_or-take n xs i d (omega (arith, h))

  count-take_last :
      (f : A → Bool) (y : A) (ys : List A) (d : A)
      → count f (take (length ys) (y ∷ ys)) + one_if (f (get_or (y ∷ ys) (length ys) d))
        ≡ count f (y ∷ ys)
  count-take_last f y [] d = omega arith
  count-take_last f y (z ∷ zs) d = omega (arith, count-take_last f z zs d)

module _ {ℓ} {A : Type ℓ} (less : A → A → Bool) (o : IsOrder less) where
  -- With enough fuel to climb, no item is less than the top.
  top-least :
      (fuel : ℕ) (v : List A) (d : A) (i : ℕ)
      → is_heap less v ≡ true
      → i < length v
      → i < fuel
      → less (get_or v i d) (get_or v 0 d) ≡ false
  top-least zero v d i h q b = absurd (omega arith)
  top-least (suc fuel) v d zero h q b = irrefl less o (get_or v 0 d)
  top-least (suc fuel) v d (suc i) h q b =
      let low = parent-lt less o (suc i) (omega arith) in
      o.trans (get_or v 0 d) (get_or v (parent (suc i)) d) (get_or v (suc i) d)
        (top-least fuel v d (parent (suc i)) h (omega (arith, low, q)) (omega (arith, low, b)))
        (is_heap-at less v d (suc i) h (omega arith) q)

  module _ (x y : A) (ys : List A) (h : is_heap less (x ∷ y ∷ ys) ≡ true) where
    abbrev last : A
    last = get_or (x ∷ y ∷ ys) (length (y ∷ ys)) x

    abbrev short : List A
    short = last ∷ take (length ys) (y ∷ ys)

    short-size : length short ≡ length (y ∷ ys)
    short-size = omega (arith, length-take (length ys) (y ∷ ys))

    short-at : (i : ℕ) → 0 < i → i < length short → get_or short i last ≡ get_or (x ∷ y ∷ ys) i last
    short-at zero p q = absurd (omega arith)
    short-at (suc i) p q = get_or-take (length ys) (y ∷ ys) i last (omega (arith, q, short-size))

    short-Down : Down less o 0 last short
    short-Down = record {
      others = λ i p q n k.
          by_values less o (short-at i p q)
            (short-at (parent i) (omega (arith, k)) (omega (arith, parent-lt less o i p, q)))
            (is_heap-at less (x ∷ y ∷ ys) last i h p (omega (arith, q, short-size)));
      below = λ i p q e z. absurd (omega arith);
      above = λ z. absurd (omega arith);
    }

    pop_top-more :
        (f : A → Bool)
        → (w : List A) × (pop_top less (x ∷ y ∷ ys) ≡ some (x, w))
          × (is_heap less w ≡ true)
          × (one_if (f x) + count f w ≡ count f (x ∷ y ∷ ys))
    unfolding pop_top percolate_down
    pop_top-more f =
        let (w, e, s) =
          percolate_down_loop-Sifted less o f (length short) 0 last short (omega arith)
            (omega arith) short-Down in
        (
          w,
          ap (λ m. elim m [ none ↦ none | some v ↦ some (x, v) ]) e,
          Heap-is_heap less o last w s.heap,
          omega (arith, s.items, count-take_last f y ys x),
        )

  -- `popTop` of a heap that is not empty gives its first item, than which no item is less, and leaves a
  -- heap of the other items; its loop ends and its assertions hold.
  pub pop_top-least :
      (f : A → Bool) (x : A) (xs : List A)
      → is_heap less (x ∷ xs) ≡ true
      → (w : List A) × (pop_top less (x ∷ xs) ≡ some (x, w))
        × (is_heap less w ≡ true)
        × (one_if (f x) + count f w ≡ count f (x ∷ xs))
        × (count (λ y. less y x) (x ∷ xs) ≡ 0)
  pop_top-least f x [] h =
      ([], unfold pop_top in refl, refl, omega arith, omega (arith, ap one_if (irrefl less o x)))
  pop_top-least f x (y ∷ ys) h =
      let (w, e, k, c) = pop_top-more x y ys h f in
      (
        w,
        e,
        k,
        c,
        count-none (λ z. less z x) (x ∷ y ∷ ys) x
            (λ i q. top-least (suc i) (x ∷ y ∷ ys) x i h q (omega arith)),
      )
