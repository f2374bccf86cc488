-- ===== src/Common/BinaryHeap.antt =====
-- include/hohnor/common/BinaryHeap.h: the heap as its vector, with the comparison as an argument. The
-- loops run on fuel and are none when it is out; an assertion that fails is none, too.
pub mod Items
pub mod Path
pub mod Sift
pub mod Loops
pub mod Order
pub mod Least
pub mod Mapped
mod Examples
use hohnor.Prelude.{
  ℕ, zero, suc, ◌+◌, ◌-◌, ◌*◌, ◌/◌, Bool, true, false, not, ◌&&◌, List, [], ◌∷◌, ◌++◌, Option, none,
  some, length, get_or, set, take, if◌then◌else◌, ◌==◌, ltb,
}

abbrev pub parent : ℕ → ℕ
parent child = if child == 0 then child else (child - 1) / 2

abbrev pub l_child : ℕ → ℕ
l_child p = p * 2 + 1

abbrev pub r_child : ℕ → ℕ
r_child p = (p + 1) * 2

module _ {ℓ} {A : Type ℓ} (less : A → A → Bool) where
  -- `save` is the item that the loop carries; `vec_[index]` is overwritten at the end.
  unfoldable pub percolate_up_loop : ℕ → ℕ → A → List A → Option (List A)
  percolate_up_loop zero index save v = none
  percolate_up_loop (suc fuel) index save v =
      let rest =
        percolate_up_loop fuel (parent index) save (set v index (get_or v (parent index) save)) in
      if parent index == index
      then some (set v index save)
      else if less (get_or v (parent index) save) save
      then some (set v index save)
      else rest

  -- The new item is the last.
  unfoldable pub percolate_up : A → List A → Option (List A)
  percolate_up save v = percolate_up_loop (length v) (length v - 1) save v

  unfoldable pub proper_parent : A → ℕ → List A → ℕ
  proper_parent save p v =
      let lc_valid = ltb (l_child p) (length v) in
      let rc_valid = ltb (r_child p) (length v) in
      let lc = get_or v (l_child p) save in
      let rc = get_or v (r_child p) save in
      if not lc_valid && not rc_valid
      then p
      else if lc_valid && not rc_valid
      then if less lc save then l_child p else p
      else if not lc_valid && rc_valid
      then if less rc save then r_child p else p
      else if less rc lc
      then if less rc save then r_child p else p
      else if less lc save
      then l_child p
      else p

  unfoldable pub percolate_down_loop : ℕ → ℕ → A → List A → Option (List A)
  percolate_down_loop zero index save v = none
  percolate_down_loop (suc fuel) index save v =
      let next = proper_parent save index v in
      let rest = percolate_down_loop fuel next save (set v index (get_or v next save)) in
      if next == index then some (set v index save) else rest

  unfoldable pub percolate_down : List A → Option (List A)
  percolate_down [] = none
  percolate_down (x ∷ xs) = percolate_down_loop (length (x ∷ xs)) 0 x (x ∷ xs)

  -- Both overloads of `insert`, which return the size as well.
  unfoldable pub insert : A → List A → Option (List A)
  insert item v = percolate_up item (v ++ item ∷ [])

  unfoldable pub top : List A → Option A
  top [] = none
  top (x ∷ xs) = some x

  -- The last item goes to the front, and down.
  abbrev pub drop_last : A → List A → List A
  drop_last x xs = take (length xs) (set (x ∷ xs) 0 (get_or (x ∷ xs) (length xs) x))

  abbrev pub popped : A → List A → Option (A × List A)
  popped x [] = some (x, [])
  popped x (y ∷ ys) = elim (percolate_down (drop_last x (y ∷ ys))) [
    | none ↦ none
    | some v ↦ some (x, v)
  ]

  unfoldable pub pop_top : List A → Option (A × List A)
  pop_top [] = none
  pop_top (x ∷ xs) = popped x xs
