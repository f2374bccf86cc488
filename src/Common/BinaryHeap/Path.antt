-- ===== src/Common/BinaryHeap/Path.antt =====
-- include/hohnor/common/BinaryHeap.h, `percolateUp`: the path from a leaf to the top.
use hohnor.Prelude.{
  ℕ, ◌<◌, ◌≡◌, ◌≢◌, refl, sym, ap, ap₂, ◌∙◌, ◌⊎◌, inl, inr, Bool, true, false, List, length, get_or,
  set, arith, get_or-set_self, get_or-set_ne, length-set, ℕ_discrete,
}
use hohnor.Common.BinaryHeap.{parent}

-- A comparison that is a strict order whose incomparable items are equal to it.
pub record IsOrder {ℓ} {A : Type ℓ} (less : A → A → Bool) : Type ℓ where
  pub asym : (a b : A) → less a b ≡ true → less b a ≡ false
  pub trans : (a b c : A) → less b a ≡ false → less c b ≡ false → less c a ≡ false

module _ {ℓ} {A : Type ℓ} (less : A → A → Bool) (o : IsOrder less) where
  -- The heap but for the place of `save`, which is `index`.
  pub record Up (index : ℕ) (save : A) (v : List A) : Type ℓ where
    pub others :
        (i : ℕ)
        → 0 < i
        → i < length v
        → i ≢ index
        → parent i ≢ index
        → less (get_or v i save) (get_or v (parent i) save) ≡ false
    pub above :
        (i : ℕ)
        → 0 < i
        → i < length v
        → parent i ≡ index
        → 0 < index
        → less (get_or v i save) (get_or v (parent index) save) ≡ false
    pub below :
        (i : ℕ) → 0 < i → i < length v → parent i ≡ index → less (get_or v i save) save ≡ false

  -- Every item but the first is no less than its parent.
  pub record Heap (d : A) (v : List A) : Type ℓ where
    pub ordered :
        (i : ℕ) → 0 < i → i < length v → less (get_or v i d) (get_or v (parent i) d) ≡ false

  pub by_values : {a b c d : A} → a ≡ c → b ≡ d → less c d ≡ false → less a b ≡ false
  by_values e f h = ap₂ less e f ∙ h

  pub at_self : (v : List A) (i j : ℕ) (x d : A) → i < length v → j ≡ i → get_or (set v i x) j d ≡ x
  at_self v i j x d h e = ap (λ k. get_or (set v i x) k d) e ∙ get_or-set_self v i x d h

  pub at_other : (v : List A) (i j : ℕ) (x d : A) → j ≢ i → get_or (set v i x) j d ≡ get_or v j d
  at_other v i j x d n = get_or-set_ne v i j x d (λ e. n (sym e))

  pub parent-lt : (i : ℕ) → 0 < i → parent i < i
  parent-lt i p = ground arith

  pub filled_above :
      (index : ℕ) (save : A) (v : List A)
      → index < length v
      → Up index save v
      → (index ≡ 0) ⊎ (less save (get_or v (parent index) save) ≡ false)
      → Heap save (set v index save)
  filled_above index save v h u top = record {
    ordered = λ i p q. by_place i p (omega (arith, q, length-set v index save));
  }
    where
      over :
          (index ≡ 0) ⊎ (less save (get_or v (parent index) save) ≡ false)
          → 0 < index
          → less save (get_or v (parent index) save) ≡ false
      over (inl z) p = absurd (omega arith)
      over (inr l) p = l

      by_place :
          (i : ℕ)
          → 0 < i
          → i < length v
          → less (get_or (set v index save) i save) (get_or (set v index save) (parent i) save)
            ≡ false
      by_place i p q = elim (ℕ_discrete i index) [
        | yes e ↦
            by_values (at_self v index i save save h e)
              (at_other v index (parent i) save save
                  (λ f. absurd (omega (arith, parent-lt i p, e, f)))
                ∙ ap (λ k. get_or v (parent k) save) e)
              (over top (omega (arith, e, p)))
        | no n ↦ elim (ℕ_discrete (parent i) index) [
          | yes e ↦
              by_values (at_other v index i save save n) (at_self v index (parent i) save save h e)
                (u.below i p q e)
          | no k ↦
              by_values (at_other v index i save save n) (at_other v index (parent i) save save k)
                (u.others i p q n k)
        ]
      ]

  pub moved_above :
      (index : ℕ) (save : A) (v : List A)
      → index < length v
      → 0 < index
      → Up index save v
      → less (get_or v (parent index) save) save ≡ false
      → Up (parent index) save (set v index (get_or v (parent index) save))
  moved_above index save v h z u l = record {
    others = λ i p q n k. others i p (omega (arith, q, same)) n k;
    above = λ i p q e y. above i p (omega (arith, q, same)) e y;
    below = λ i p q e. below i p (omega (arith, q, same)) e;
  }
    where
      moved : A
      moved = get_or v (parent index) save

      same : length (set v index (get_or v (parent index) save)) ≡ length v
      same = length-set v index (get_or v (parent index) save)

      others :
          (i : ℕ)
          → 0 < i
          → i < length v
          → i ≢ parent index
          → parent i ≢ parent index
          → less (get_or (set v index moved) i save) (get_or (set v index moved) (parent i) save)
            ≡ false
      others i p q n k = elim (ℕ_discrete (parent i) index) [
        | yes e ↦
            by_values
              (at_other v index i moved save (λ f. absurd (omega (arith, parent-lt i p, e, f))))
              (at_self v index (parent i) moved save h e) (u.above i p q e z)
        | no m ↦
            by_values (at_other v index i moved save (λ f. k (ap parent f)))
              (at_other v index (parent i) moved save m) (u.others i p q (λ f. k (ap parent f)) m)
      ]

      below :
          (i : ℕ)
          → 0 < i
          → i < length v
          → parent i ≡ parent index
          → less (get_or (set v index moved) i save) save ≡ false
      below i p q e = elim (ℕ_discrete i index) [
        | yes f ↦ by_values (at_self v index i moved save h f) refl l
        | no n ↦ by_values (at_other v index i moved save n) refl (
            o.trans save moved (get_or v i save) l (
              by_values refl (ap (λ k. get_or v k save) (sym e))
                (u.others i p q n (λ f. absurd (omega (arith, parent-lt index z, e, f))))))
      ]

      above :
          (i : ℕ)
          → 0 < i
          → i < length v
          → parent i ≡ parent index
          → 0 < parent index
          → less
              (get_or (set v index moved) i save)
              (get_or (set v index moved) (parent (parent index)) save)
            ≡ false
      above i p q e y = elim (ℕ_discrete i index) [
        | yes f ↦ by_values (at_self v index i moved save h f) upper over
        | no n ↦ by_values (at_other v index i moved save n) upper (
            o.trans (get_or v (parent (parent index)) save) moved (get_or v i save) over (
              by_values refl (ap (λ k. get_or v k save) (sym e))
                (u.others i p q n (λ f. absurd (omega (arith, parent-lt index z, e, f))))))
      ]
        where
          lower : parent (parent index) < index
          lower = omega (arith, parent-lt index z, parent-lt (parent index) y)

          upper :
              get_or (set v index moved) (parent (parent index)) save
              ≡ get_or v (parent (parent index)) save
          upper =
              at_other v index (parent (parent index)) moved save
                (λ f. absurd (omega (arith, lower, f)))

          over : less moved (get_or v (parent (parent index)) save) ≡ false
          over =
              u.others (parent index) y (omega (arith, parent-lt index z, h))
                (λ f. absurd (omega (arith, parent-lt index z, f)))
                (λ f. absurd (omega (arith, lower, f)))
