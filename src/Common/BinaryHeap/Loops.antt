-- ===== src/Common/BinaryHeap/Loops.antt =====
-- include/hohnor/common/BinaryHeap.h: the two loops end, with a heap of the same items.
use hohnor.Prelude.{
  ℕ, zero, suc, ◌+◌, ◌≤◌, ◌<◌, ◌≡◌, ◌≢◌, refl, ◌∙◌, ◌⊎◌, inl, inr, Bool, true, false, Bool-cases,
  List, some, length, get_or, set, ◌==◌, arith, length-set,
}
use hohnor.Common.BinaryHeap.{parent, percolate_up_loop, percolate_down_loop, proper_parent}
use hohnor.Common.BinaryHeap.Items.{count, count-moved}
use hohnor.Common.BinaryHeap.Path.{IsOrder, Heap, Up, filled_above, moved_above, parent-lt}
use hohnor.Common.BinaryHeap.Sift.{Down, Leads, proper_parent-Leads, filled_below, moved_below}

module _ {ℓ} {A : Type ℓ} (less : A → A → Bool) (o : IsOrder less) (f : A → Bool) where
  -- A loop's result, where `save` had the place `index`.
  pub record Sifted (index : ℕ) (save : A) (v w : List A) : Type ℓ where
    pub heap : Heap less o save w
    pub size : length w ≡ length v
    pub items : count f w ≡ count f (set v index save)

  filled-Sifted :
      (index : ℕ) (save : A) (v : List A)
      → Heap less o save (set v index save)
      → Sifted index save v (set v index save)
  filled-Sifted index save v h = record { heap = h; size = length-set v index save; items = refl }

  moved-Sifted :
      (index r : ℕ) (save : A) (v w : List A)
      → index < length v
      → r < length v
      → r ≢ index
      → Sifted r save (set v index (get_or v r save)) w
      → Sifted index save v w
  moved-Sifted index r save v w h k n s = record {
    heap = s.heap;
    size = s.size ∙ length-set v index (get_or v r save);
    items = s.items ∙ count-moved f v index r save save h k n;
  }

  up-stops :
      (fuel index : ℕ) (save : A) (v : List A)
      → (parent index ≡ index) ⊎ (less (get_or v (parent index) save) save ≡ true)
      → percolate_up_loop less (suc fuel) index save v ≡ some (set v index save)
  unfolding percolate_up_loop
  up-stops fuel index save v (inl e) = let t : (parent index == index) ≡ true = ground arith in rw t
  up-stops fuel index save v (inr l) = elim (Bool-cases (parent index == index)) [
    | inl t ↦ rw t
    | inr g ↦ rw (g, l)
  ]

  up-goes :
      (fuel index : ℕ) (save : A) (v : List A)
      → parent index ≢ index
      → less (get_or v (parent index) save) save ≡ false
      → percolate_up_loop less (suc fuel) index save v
        ≡ percolate_up_loop less fuel
            (parent index)
            save
            (set v index (get_or v (parent index) save))
  unfolding percolate_up_loop
  up-goes fuel index save v n l =
      let g : (parent index == index) ≡ false = ground arith in rw (g, l)

  pub percolate_up_loop-Sifted :
      (fuel index : ℕ) (save : A) (v : List A)
      → index < fuel
      → index < length v
      → Up less o index save v
      → (w : List A) × (percolate_up_loop less fuel index save v ≡ some w) × Sifted index save v w
  percolate_up_loop-Sifted zero index save v b h u = absurd (omega arith)
  percolate_up_loop-Sifted (suc fuel) zero save v b h u = (
    set v 0 save,
    up-stops fuel 0 save v (inl refl),
    filled-Sifted 0 save v (filled_above less o 0 save v h u (inl refl)),
  )
  percolate_up_loop-Sifted (suc fuel) (suc n) save v b h u =
      elim (Bool-cases (less (get_or v (parent (suc n)) save) save)) [
        | inl t ↦ (
          set v (suc n) save,
          up-stops fuel (suc n) save v (inr t),
          filled-Sifted (suc n) save v (
              filled_above less o (suc n) save v h u
                (inr (o.asym (get_or v (parent (suc n)) save) save t))),
        )
        | inr g ↦
            let low = parent-lt less o (suc n) (omega arith) in
            let (w, e, s) =
              percolate_up_loop-Sifted fuel (parent (suc n)) save
                (set v (suc n) (get_or v (parent (suc n)) save)) (omega (arith, low, b))
                (omega (arith, low, h, length-set v (suc n) (get_or v (parent (suc n)) save)))
                (moved_above less o (suc n) save v h (omega arith) u g) in
            (
              w,
              up-goes fuel (suc n) save v (λ q. absurd (omega (arith, low, q))) g ∙ e,
              moved-Sifted (suc n) (parent (suc n)) save v w h (omega (arith, low, h))
                  (λ q. absurd (omega (arith, low, q))) s,
            )
      ]

  down-stops :
      (fuel index : ℕ) (save : A) (v : List A)
      → proper_parent less save index v ≡ index
      → percolate_down_loop less (suc fuel) index save v ≡ some (set v index save)
  unfolding percolate_down_loop
  down-stops fuel index save v e =
      let t : (proper_parent less save index v == index) ≡ true = ground arith in rw t

  down-goes :
      (fuel index r : ℕ) (save : A) (v : List A)
      → proper_parent less save index v ≡ r
      → r ≢ index
      → percolate_down_loop less (suc fuel) index save v
        ≡ percolate_down_loop less fuel r save (set v index (get_or v r save))
  unfolding percolate_down_loop
  down-goes fuel index r save v e n = let g : (r == index) ≡ false = ground arith in rw (e, g)

  pub percolate_down_loop-Sifted :
      (fuel index : ℕ) (save : A) (v : List A)
      → length v ≤ fuel + index
      → index < length v
      → Down less o index save v
      → (w : List A) × (percolate_down_loop less fuel index save v ≡ some w) × Sifted index save v w
  percolate_down_loop-Sifted zero index save v b h u = absurd (omega arith)
  percolate_down_loop-Sifted (suc fuel) index save v b h u =
      let (r, e, l) = proper_parent-Leads less o save index v h in
      by_choice r e l (percolate_down_loop-Sifted fuel r save (set v index (get_or v r save)))
    where
      by_choice :
          (r : ℕ)
          → proper_parent less save index v ≡ r
          → Leads less o index save v r
          → (length (set v index (get_or v r save)) ≤ fuel + r
              → r < length (set v index (get_or v r save))
              → Down less o r save (set v index (get_or v r save))
              → (w : List A) × (percolate_down_loop less fuel r save (set v index (get_or v r save))
                  ≡ some w)
                × Sifted r save (set v index (get_or v r save)) w)
          → (w : List A) × (percolate_down_loop less (suc fuel) index save v ≡ some w)
            × Sifted index save v w
      by_choice r e (inl (z, fits)) k = (
        set v index save,
        down-stops fuel index save v (e ∙ z),
        filled-Sifted index save v (filled_below less o index save v h u fits),
      )
      by_choice r e (inr (q, p, m, l, least)) k =
          let low = parent-lt less o r p in
          let same = length-set v index (get_or v r save) in
          let (w, g, s) =
            k (omega (arith, same, low, q, b)) (omega (arith, same, m))
              (moved_below less o index r save v h u q p m l least) in
          (
            w,
            down-goes fuel index r save v e (λ t. absurd (omega (arith, low, q, t))) ∙ g,
            moved-Sifted index r save v w h m (λ t. absurd (omega (arith, low, q, t))) s,
          )
