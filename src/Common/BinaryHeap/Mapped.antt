-- ===== src/Common/BinaryHeap/Mapped.antt =====
-- include/hohnor/common/BinaryHeap.h: items that change where they stand, and keep their order, leave a heap.
use hohnor.Prelude.{
  ℕ, zero, suc, ◌≡◌, refl, ap, ap₂, ◌∙◌, Bool, true, false, not, ◌&&◌, ◌||◌, List, [], ◌∷◌, ◌++◌,
  map, length, get_or, length-map, ◌==◌, ◌+◌, arith,
}
use hohnor.Common.BinaryHeap.{parent}
use hohnor.Common.BinaryHeap.Items.{count, one_if}
use hohnor.Common.BinaryHeap.Order.{are_ordered, is_heap}

module _ {ℓ} {A : Type ℓ} where
  get_or-map :
      (g : A → A) (v : List A) (i : ℕ) (d : A) → get_or (map g v) i (g d) ≡ g (get_or v i d)
  get_or-map g [] i d = refl
  get_or-map g (x ∷ xs) zero d = refl
  get_or-map g (x ∷ xs) (suc i) d = get_or-map g xs i d

  -- A test that holds of no item holds of none after the change.
  pub count-map_zero :
      (f h : A → Bool) (g : A → A) (v : List A)
      → ((x : A) → f x ≡ false → h (g x) ≡ false)
      → count f v ≡ 0
      → count h (map g v) ≡ 0
  count-map_zero f h g [] k e = refl
  count-map_zero f h g (x ∷ xs) k e = by_test (f x) refl (λ r. count-map_zero f h g xs k r)
    where
      by_test :
          (b : Bool)
          → f x ≡ b
          → (count f xs ≡ 0 → count h (map g xs) ≡ 0)
          → one_if (h (g x)) + count h (map g xs) ≡ 0
      by_test true t rest = absurd (omega (arith, e, ap one_if t))
      by_test false t rest = omega (arith, ap one_if (k x t), rest (omega (arith, e)))

  pub count-append_list : (f : A → Bool) (v w : List A) → count f (v ++ w) ≡ count f v + count f w
  count-append_list f [] w = omega arith
  count-append_list f (x ∷ xs) w = omega (arith, count-append_list f xs w)

module _ {ℓ} {A : Type ℓ} (less : A → A → Bool) (g : A → A)
    (keeps : (a b : A) → less (g a) (g b) ≡ less a b) where
  are_ordered-map :
      (d : A) (v : List A) (n : ℕ) → are_ordered less (g d) (map g v) n ≡ are_ordered less d v n
  are_ordered-map d v zero = refl
  are_ordered-map d v (suc n) =
      ap₂ ◌&&◌
        (ap (λ b. (n == 0) || not b)
          (ap₂ less (get_or-map g v n d) (get_or-map g v (parent n) d)
            ∙ keeps (get_or v n d) (get_or v (parent n) d)))
        (are_ordered-map d v n)

  pub is_heap-map : (v : List A) → is_heap less (map g v) ≡ is_heap less v
  is_heap-map [] = refl
  is_heap-map (x ∷ xs) =
      ap (are_ordered less (g x) (map g (x ∷ xs))) (length-map (x ∷ xs) g)
      ∙ are_ordered-map x (x ∷ xs) (length (x ∷ xs))
