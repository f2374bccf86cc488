-- ===== src/Common/BinaryHeap/Examples.antt =====
-- Tests of include/hohnor/common/BinaryHeap.h, and instances of its theorems.
use hohnor.Prelude.{ℕ, ◌+◌, ◌≡◌, refl, true, List, [], ◌∷◌, some, arith, ltb}
use hohnor.Common.BinaryHeap.{
  insert, percolate_up, percolate_up_loop, pop_top, percolate_down, percolate_down_loop,
  proper_parent,
}
use hohnor.Common.BinaryHeap.Items.{count, one_if}
use hohnor.Common.BinaryHeap.Path.{IsOrder}
use hohnor.Common.BinaryHeap.Order.{is_heap, insert-is_heap}
use hohnor.Common.BinaryHeap.Least.{pop_top-least}

ltb-IsOrder : IsOrder ltb
ltb-IsOrder = record { asym = λ a b h. ground arith; trans = λ a b c h k. ground arith }

abbrev three : List ℕ
three = 2 ∷ 7 ∷ 4 ∷ []

inserted : insert ltb 1 three ≡ some (1 ∷ 2 ∷ 4 ∷ 7 ∷ [])
unfolding insert percolate_up percolate_up_loop
inserted = refl

removed : pop_top ltb three ≡ some (2, 4 ∷ 7 ∷ [])
unfolding pop_top percolate_down percolate_down_loop proper_parent
removed = refl

insert-is_heap_example :
    (w : List ℕ) × (insert ltb 1 three ≡ some w)
    × (is_heap ltb w ≡ true)
    × (count (ltb 3) w ≡ one_if (ltb 3 1) + count (ltb 3) three)
insert-is_heap_example = insert-is_heap ltb ltb-IsOrder (ltb 3) 1 three refl

pop_top-least_example :
    (w : List ℕ) × (pop_top ltb three ≡ some (2, w))
    × (is_heap ltb w ≡ true)
    × (one_if (ltb 3 2) + count (ltb 3) w ≡ count (ltb 3) three)
    × (count (λ y. ltb y 2) three ≡ 0)
pop_top-least_example = pop_top-least ltb ltb-IsOrder (ltb 3) 2 (7 ∷ 4 ∷ []) refl
