-- ===== src/Common/BinaryHeap/Sift.antt =====
-- include/hohnor/common/BinaryHeap.h, `perolateDown`: the path from the top to where the item fits.
use hohnor.Prelude.{
  ℕ, ◌≤◌, ◌<◌, ◌≡◌, ◌≢◌, refl, sym, ap, ◌∙◌, ◌⊎◌, inl, inr, Bool, true, false, Bool-cases, List,
  length, get_or, set, arith, length-set, ℕ_discrete, dec_lt,
}
use hohnor.Common.BinaryHeap.{parent, l_child, r_child, proper_parent}
use hohnor.Common.BinaryHeap.Path.{IsOrder, Heap, by_values, at_self, at_other, parent-lt}

module _ {ℓ} {A : Type ℓ} (less : A → A → Bool) (o : IsOrder less) where
  pub irrefl : (a : A) → less a a ≡ false
  irrefl a = elim (Bool-cases (less a a)) [ inl t ↦ o.asym a a t | inr f ↦ f ]

  -- The heap but for the place of `save`, which is `index`.
  pub record Down (index : ℕ) (save : A) (v : List A) : Type ℓ where
    pub others :
        (i : ℕ)
        → 0 < i
        → i < length v
        → i ≢ index
        → parent i ≢ index
        → less (get_or v i save) (get_or v (parent i) save) ≡ false
    pub below :
        (i : ℕ)
        → 0 < i
        → i < length v
        → parent i ≡ index
        → 0 < index
        → less (get_or v i save) (get_or v (parent index) save) ≡ false
    pub above : 0 < index → less save (get_or v (parent index) save) ≡ false

  -- Where `proper_parent` leads: to the place itself, below which all are no less than `save`, or to
  -- a child that is less than `save` and no greater than its sibling.
  abbrev pub Leads : ℕ → A → List A → ℕ → Type 0
  Leads index save v r =
      ((r ≡ index)
        × ((i : ℕ) → 0 < i → i < length v → parent i ≡ index → less (get_or v i save) save ≡ false))
      ⊎ ((parent r ≡ index)
          × (0 < r)
          × (r < length v)
          × (less (get_or v r save) save ≡ true)
          × ((i : ℕ)
              → 0 < i
              → i < length v
              → parent i ≡ index
              → less (get_or v i save) (get_or v r save) ≡ false))

  children : (i index : ℕ) → 0 < i → parent i ≡ index → (i ≡ l_child index) ⊎ (i ≡ r_child index)
  children i index p e = elim (ℕ_discrete i (l_child index)) [
    | yes f ↦ inl f
    | no n ↦ inr (ground arith)
  ]

  module _ (save : A) (index : ℕ) (v : List A) (h : index < length v) where
    abbrev lc : A
    lc = get_or v (l_child index) save

    abbrev rc : A
    rc = get_or v (r_child index) save

    -- What holds of both children holds of all places below.
    both :
        (x : A)
        → (l_child index < length v → less lc x ≡ false)
        → (r_child index < length v → less rc x ≡ false)
        → (i : ℕ) → 0 < i
        → i < length v
        → parent i ≡ index
        → less (get_or v i save) x ≡ false
    both x l r i p q e = by_child (children i index p e)
      where
        by_child : (i ≡ l_child index) ⊎ (i ≡ r_child index) → less (get_or v i save) x ≡ false
        by_child (inl f) =
            by_values less o (ap (λ k. get_or v k save) f) refl (l (omega (arith, f, q)))
        by_child (inr f) =
            by_values less o (ap (λ k. get_or v k save) f) refl (r (omega (arith, f, q)))

    -- The choice where there are two children.
    two-Leads :
        l_child index < length v
        → r_child index < length v
        → (b c d : Bool) → less rc lc ≡ b
        → less rc save ≡ c
        → less lc save ≡ d
        → (r : ℕ) × (proper_parent less save index v ≡ r) × Leads index save v r
    two-Leads l r true true d eb ec ed = (
      r_child index,
      unfold proper_parent in ground arith,
      inr (ground arith, omega arith, r, ec, both rc (λ _. o.asym rc lc eb) (λ _. irrefl rc)),
    )
    two-Leads l r true false d eb ec ed = (
      index,
      unfold proper_parent in ground arith,
      inl (refl, both save (λ _. o.trans save rc lc ec (o.asym rc lc eb)) (λ _. ec)),
    )
    two-Leads l r false c true eb ec ed = (
      l_child index,
      unfold proper_parent in ground arith,
      inr (ground arith, omega arith, l, ed, both lc (λ _. irrefl lc) (λ _. eb)),
    )
    two-Leads l r false c false eb ec ed = (
      index,
      unfold proper_parent in ground arith,
      inl (refl, both save (λ _. ed) (λ _. o.trans save lc rc ed eb)),
    )

    one-Leads :
        l_child index < length v
        → length v ≤ r_child index
        → (d : Bool) → less lc save ≡ d
        → (r : ℕ) × (proper_parent less save index v ≡ r) × Leads index save v r
    one-Leads l r true ed = (
      l_child index,
      unfold proper_parent in ground arith,
      inr (ground arith, omega arith, l, ed, both lc (λ _. irrefl lc) (λ q. absurd (omega arith))),
    )
    one-Leads l r false ed = (
      index,
      unfold proper_parent in ground arith,
      inl (refl, both save (λ _. ed) (λ q. absurd (omega arith))),
    )

    pub proper_parent-Leads : (r : ℕ) × (proper_parent less save index v ≡ r) × Leads index save v r
    proper_parent-Leads = elim (dec_lt (r_child index) (length v)) [
      | yes r ↦ two-Leads (omega arith) r (less rc lc) (less rc save) (less lc save) refl refl refl
      | no r ↦ elim (dec_lt (l_child index) (length v)) [
        | yes l ↦ one-Leads l (omega arith) (less lc save) refl
        | no l ↦ (
          index,
          unfold proper_parent in ground arith,
          inl (refl, both save (λ q. absurd (omega arith)) (λ q. absurd (omega arith))),
        )
      ]
    ]

  pub filled_below :
      (index : ℕ) (save : A) (v : List A)
      → index < length v
      → Down index save v
      → ((i : ℕ) → 0 < i → i < length v → parent i ≡ index → less (get_or v i save) save ≡ false)
      → Heap less o save (set v index save)
  filled_below index save v h u fits = record {
    ordered = λ i p q. by_place i p (omega (arith, q, length-set v index save));
  }
    where
      by_place :
          (i : ℕ)
          → 0 < i
          → i < length v
          → less (get_or (set v index save) i save) (get_or (set v index save) (parent i) save)
            ≡ false
      by_place i p q = elim (ℕ_discrete i index) [
        | yes e ↦
            by_values less o (at_self less o v index i save save h e)
              (at_other less o v index (parent i) save save
                  (λ f. absurd (omega (arith, parent-lt less o i p, e, f)))
                ∙ ap (λ k. get_or v (parent k) save) e)
              (u.above (omega (arith, e, p)))
        | no n ↦ elim (ℕ_discrete (parent i) index) [
          | yes e ↦
              by_values less o (at_other less o v index i save save n)
                (at_self less o v index (parent i) save save h e) (fits i p q e)
          | no k ↦
              by_values less o (at_other less o v index i save save n)
                (at_other less o v index (parent i) save save k) (u.others i p q n k)
        ]
      ]

  pub moved_below :
      (index r : ℕ) (save : A) (v : List A)
      → index < length v
      → Down index save v
      → (parent r ≡ index)
      → 0 < r
      → r < length v
      → less (get_or v r save) save ≡ true
      → ((i : ℕ)
          → 0 < i
          → i < length v
          → parent i ≡ index
          → less (get_or v i save) (get_or v r save) ≡ false)
      → Down r save (set v index (get_or v r save))
  moved_below index r save v h u e z k l least = record {
    others = λ i p q n m. others i p (omega (arith, q, same)) n m;
    below = λ i p q f y. below i p (omega (arith, q, same)) f;
    above = λ y. above;
  }
    where
      moved : A
      moved = get_or v r save

      same : length (set v index (get_or v r save)) ≡ length v
      same = length-set v index (get_or v r save)

      lower : index < r
      lower = omega (arith, parent-lt less o r z, e)

      others :
          (i : ℕ)
          → 0 < i
          → i < length v
          → i ≢ r
          → parent i ≢ r
          → less (get_or (set v index moved) i save) (get_or (set v index moved) (parent i) save)
            ≡ false
      others i p q n m = elim (ℕ_discrete i index) [
        | yes f ↦
            by_values less o (at_self less o v index i moved save h f)
              (at_other less o v index (parent i) moved save
                  (λ g. absurd (omega (arith, parent-lt less o i p, f, g)))
                ∙ ap (λ k. get_or v (parent k) save) f)
              (u.below r z k e (omega (arith, f, p)))
        | no f ↦ elim (ℕ_discrete (parent i) index) [
          | yes g ↦
              by_values less o (at_other less o v index i moved save f)
                (at_self less o v index (parent i) moved save h g) (least i p q g)
          | no g ↦
              by_values less o (at_other less o v index i moved save f)
                (at_other less o v index (parent i) moved save g) (u.others i p q f g)
        ]
      ]

      below :
          (i : ℕ)
          → 0 < i
          → i < length v
          → parent i ≡ r
          → less (get_or (set v index moved) i save) (get_or (set v index moved) (parent r) save)
            ≡ false
      below i p q f =
          by_values less o
            (at_other less o v index i moved save
              (λ g. absurd (omega (arith, parent-lt less o i p, f, g, lower))))
            (at_self less o v index (parent r) moved save h e)
            (by_values less o refl (ap (λ k. get_or v k save) (sym f)) (
              u.others i p q (λ g. absurd (omega (arith, parent-lt less o i p, f, g, lower)))
                (λ g. absurd (omega (arith, f, g, lower)))))

      above : less save (get_or (set v index moved) (parent r) save) ≡ false
      above =
          by_values less o refl (at_self less o v index (parent r) moved save h e)
            (o.asym moved save l)
