-- ===== src/Common/Buffer/Bytes.antt =====
-- Slices and block copies of the storage of include/hohnor/common/Buffer.h.
use Prim.Native.Nat.add
use hohnor.Prelude.{
  ℕ, zero, suc, ◌+◌, ◌-◌, ◌≤◌, ◌≡◌, refl, sym, ap, ◌∙◌, List, [], ◌∷◌, ◌++◌, length, take, drop,
  length-append, length-take, length-drop, arith,
}
use hohnor.Common.Buffer.{slice, copy_to}

module _ {ℓ} {A : Type ℓ} where
  pub drop-nil : (n : ℕ) → drop {A = A} n [] ≡ []
  drop-nil zero = refl
  drop-nil (suc n) = refl

  pub take-nil : (n : ℕ) → take {A = A} n [] ≡ []
  take-nil zero = refl
  take-nil (suc n) = refl

  pub take_all : (n : ℕ) (xs : List A) → length xs ≤ n → take n xs ≡ xs
  take_all zero [] h = refl
  take_all zero (x ∷ xs) h = absurd (omega arith)
  take_all (suc n) [] h = refl
  take_all (suc n) (x ∷ xs) h = ap (λ l. x ∷ l) (take_all n xs (omega arith))

  pub take-take-le : (n m : ℕ) (xs : List A) → n ≤ m → take n (take m xs) ≡ take n xs
  take-take-le zero m xs h = refl
  take-take-le (suc n) zero xs h = absurd (omega arith)
  take-take-le (suc n) (suc m) [] h = refl
  take-take-le (suc n) (suc m) (x ∷ xs) h = ap (λ l. x ∷ l) (take-take-le n m xs (omega arith))

  pub drop-drop : (n m : ℕ) (xs : List A) → drop n (drop m xs) ≡ drop (m + n) xs
  drop-drop n zero xs = ap (λ k. drop k xs) (omega arith)
  drop-drop n (suc m) [] = drop-nil n ∙ sym (drop-nil (suc m + n))
  drop-drop n (suc m) (x ∷ xs) = drop-drop n m xs ∙ ap (λ k. drop k (x ∷ xs)) (sym (add.suc m n))

  pub drop-take : (n m : ℕ) (xs : List A) → drop n (take (n + m) xs) ≡ take m (drop n xs)
  drop-take zero m xs = ap (λ k. take k xs) (omega arith)
  drop-take (suc n) m [] = ap (drop (suc n)) (take-nil (suc n + m)) ∙ sym (take-nil m)
  drop-take (suc n) m (x ∷ xs) =
      ap (λ k. drop (suc n) (take k (x ∷ xs))) (add.suc n m) ∙ drop-take n m xs

  pub take-append_le : (n : ℕ) (xs ys : List A) → n ≤ length xs → take n (xs ++ ys) ≡ take n xs
  take-append_le zero xs ys h = refl
  take-append_le (suc n) [] ys h = absurd (omega arith)
  take-append_le (suc n) (x ∷ xs) ys h = ap (λ l. x ∷ l) (take-append_le n xs ys (omega arith))

  pub drop-append_le :
      (n : ℕ) (xs ys : List A) → n ≤ length xs → drop n (xs ++ ys) ≡ drop n xs ++ ys
  drop-append_le zero xs ys h = refl
  drop-append_le (suc n) [] ys h = absurd (omega arith)
  drop-append_le (suc n) (x ∷ xs) ys h = drop-append_le n xs ys (omega arith)

  pub drop-append_self : (xs ys : List A) → drop (length xs) (xs ++ ys) ≡ ys
  drop-append_self [] ys = refl
  drop-append_self (x ∷ xs) ys = drop-append_self xs ys

  pub take-append_self : (xs ys : List A) → take (length xs) (xs ++ ys) ≡ xs
  take-append_self [] ys = refl
  take-append_self (x ∷ xs) ys = ap (λ l. x ∷ l) (take-append_self xs ys)

  pub take_split : (n m : ℕ) (xs : List A) → take (n + m) xs ≡ take n xs ++ take m (drop n xs)
  take_split zero m xs = ap (λ k. take k xs) (omega arith)
  take_split (suc n) m [] = take-nil (suc n + m) ∙ sym (take-nil m)
  take_split (suc n) m (x ∷ xs) =
      ap (λ k. take k (x ∷ xs)) (add.suc n m) ∙ ap (λ l. x ∷ l) (take_split n m xs)

  pub drop_all : (n : ℕ) (xs : List A) → length xs ≤ n → drop n xs ≡ []
  drop_all zero [] h = refl
  drop_all zero (x ∷ xs) h = absurd (omega arith)
  drop_all (suc n) [] h = refl
  drop_all (suc n) (x ∷ xs) h = drop_all n xs (omega arith)

-- `n` bytes from `i` on, where they exist.
pub length-slice : (xs : List ℕ) (i n : ℕ) → i + n ≤ length xs → length (slice xs i n) ≡ n
length-slice xs i n h = omega (arith, length-take n (drop i xs), length-drop i xs)

pub slice_split :
    (xs : List ℕ) (i n m : ℕ) → slice xs i (n + m) ≡ slice xs i n ++ slice xs (i + n) m
slice_split xs i n m =
    take_split n m (drop i xs) ∙ ap (λ l. take n (drop i xs) ++ take m l) (drop-drop n i xs)

pub drop-slice : (xs : List ℕ) (i n m : ℕ) → drop n (slice xs i (n + m)) ≡ slice xs (i + n) m
drop-slice xs i n m = drop-take n m (drop i xs) ∙ ap (take m) (drop-drop n i xs)

pub drop-slice_sub :
    (xs : List ℕ) (i n m : ℕ) → n ≤ m → drop n (slice xs i m) ≡ slice xs (i + n) (m - n)
drop-slice_sub xs i n m h =
    ap (λ k. drop n (slice xs i k)) {x = m} {y = n + (m - n)} (omega arith)
    ∙ drop-slice xs i n (m - n)

-- A slice that ends before `length xs` does not see what is appended.
pub slice-append_le :
    (xs ys : List ℕ) (i n : ℕ) → i + n ≤ length xs → slice (xs ++ ys) i n ≡ slice xs i n
slice-append_le xs ys i n h =
    ap (take n) (drop-append_le i xs ys (omega arith))
    ∙ take-append_le n (drop i xs) ys (omega (arith, length-drop i xs))

pub slice-take_le : (xs : List ℕ) (i n k : ℕ) → i + n ≤ k → slice (take k xs) i n ≡ slice xs i n
slice-take_le xs i n k h =
    ap (λ j. slice (take j xs) i n) {x = k} {y = i + (n + (k - i - n))} (omega arith)
    ∙ ap (take n) (drop-take i (n + (k - i - n)) xs)
    ∙ take-take-le n (n + (k - i - n)) (drop i xs) (omega arith)

pub length-copy_to :
    (xs : List ℕ) (i : ℕ) (new : List ℕ)
    → i + length new ≤ length xs
    → length (copy_to xs i new) ≡ length xs
unfolding copy_to
length-copy_to xs i new h = omega (
  arith,
  length-append (take i xs) (new ++ drop (i + length new) xs),
  length-append new (drop (i + length new) xs),
  length-take i xs,
  length-drop (i + length new) xs,
)

-- Before the place that is written, the storage keeps its bytes.
pub slice-copy_to_before :
    (xs : List ℕ) (i : ℕ) (new : List ℕ) (j n : ℕ)
    → j + n ≤ i
    → i ≤ length xs
    → slice (copy_to xs i new) j n ≡ slice xs j n
unfolding copy_to
slice-copy_to_before xs i new j n h k =
    slice-append_le (take i xs) _ j n (omega (arith, length-take i xs)) ∙ slice-take_le xs j n i h

-- At that place stand the new bytes.
pub slice-copy_to_at :
    (xs : List ℕ) (i : ℕ) (new : List ℕ)
    → i ≤ length xs
    → slice (copy_to xs i new) i (length new) ≡ new
unfolding copy_to
slice-copy_to_at xs i new k =
    ap (λ j. take (length new) (drop j (take i xs ++ (new ++ drop (i + length new) xs)))) {x = i}
      {y = length (take i xs)} (omega (arith, length-take i xs))
    ∙ ap (take (length new)) (drop-append_self (take i xs) _)
    ∙ take-append_self new _

-- Behind them, too, the storage keeps its bytes.
pub slice-copy_to_after :
    (xs : List ℕ) (i : ℕ) (new : List ℕ) (n : ℕ)
    → i ≤ length xs
    → slice (copy_to xs i new) (i + length new) n ≡ slice xs (i + length new) n
unfolding copy_to
slice-copy_to_after xs i new n k = ap (take n) (
    sym (drop-drop (length new) i (take i xs ++ (new ++ drop (i + length new) xs)))
    ∙ ap (λ j. drop (length new) (drop j (take i xs ++ (new ++ drop (i + length new) xs)))) {x = i}
        {y = length (take i xs)} (omega (arith, length-take i xs))
    ∙ ap (drop (length new)) (drop-append_self (take i xs) _)
    ∙ drop-append_self new _)
