-- ===== src/Common/BinaryHeap/Items.antt =====
-- include/hohnor/common/BinaryHeap.h: the items of the vector as a multiset, through the count of those
-- that satisfy a test.
use hohnor.Prelude.{
  ℕ, zero, suc, ◌+◌, ◌<◌, ◌≡◌, ◌≢◌, refl, sym, ap, Bool, true, false, List, [], ◌∷◌, ◌++◌, length,
  get_or, set, arith, get_or-set_ne, length-set,
}

abbrev pub one_if : Bool → ℕ
one_if true = 1
one_if false = 0

pub one_if-zero : (b : Bool) (n : ℕ) → one_if b + n ≡ 0 → b ≡ false
one_if-zero true n h = absurd (omega (arith, h))
one_if-zero false n h = refl

module _ {ℓ} {A : Type ℓ} where
  abbrev pub count : (A → Bool) → List A → ℕ
  count f [] = 0
  count f (x ∷ xs) = one_if (f x) + count f xs

  pub count-set :
      (f : A → Bool) (v : List A) (i : ℕ) (x d : A)
      → i < length v
      → count f (set v i x) + one_if (f (get_or v i d)) ≡ count f v + one_if (f x)
  count-set f [] i x d h = absurd (omega arith)
  count-set f (y ∷ ys) zero x d h = omega arith
  count-set f (y ∷ ys) (suc i) x d h = omega (arith, count-set f ys i x d (omega (arith, h)))

  pub count-append :
      (f : A → Bool) (v : List A) (x : A) → count f (v ++ x ∷ []) ≡ count f v + one_if (f x)
  count-append f [] x = omega arith
  count-append f (y ∷ ys) x = omega (arith, count-append f ys x)

  -- The carried item moves from `i` to `j`.
  pub count-moved :
      (f : A → Bool) (v : List A) (i j : ℕ) (x d : A)
      → i < length v
      → j < length v
      → j ≢ i
      → count f (set (set v i (get_or v j d)) j x) ≡ count f (set v i x)
  count-moved f v i j x d h k n = omega (
    arith,
    count-set f (set v i (get_or v j d)) j x d (omega (arith, k, length-set v i (get_or v j d))),
    count-set f v i (get_or v j d) d h,
    count-set f v i x d h,
    ap (λ y. one_if (f y)) (get_or-set_ne v i j (get_or v j d) d (λ e. n (sym e))),
  )

  pub get_or-any : (v : List A) (i : ℕ) (d e : A) → i < length v → get_or v i d ≡ get_or v i e
  get_or-any [] i d e h = absurd (omega arith)
  get_or-any (x ∷ xs) zero d e h = refl
  get_or-any (x ∷ xs) (suc i) d e h = get_or-any xs i d e (omega (arith, h))

  pub get_or-append :
      (v : List A) (x : A) (i : ℕ) (d : A) → i < length v → get_or (v ++ x ∷ []) i d ≡ get_or v i d
  get_or-append [] x i d h = absurd (omega arith)
  get_or-append (y ∷ ys) x zero d h = refl
  get_or-append (y ∷ ys) x (suc i) d h = get_or-append ys x i d (omega (arith, h))

  pub get_or-append_last : (v : List A) (x d : A) → get_or (v ++ x ∷ []) (length v) d ≡ x
  get_or-append_last [] x d = refl
  get_or-append_last (y ∷ ys) x d = get_or-append_last ys x d
