-- ===== src/Common/CircularBuffer/Examples.antt =====
-- Tests of the ring of include/hohnor/common/CircularBuffer.h, and instances of its theorems.
use hohnor.Prelude.{length, List, ℕ, ◌≡◌, refl, [], ◌∷◌, none, some, arith}
use hohnor.Common.CircularBuffer.{CircularBuffer, create, enqueue, dequeue, full, size, empty}
use hohnor.Common.CircularBuffer.Contents.{IsValid, contents}
use hohnor.Common.CircularBuffer.Runs.{
  Op, puts, gets, throws, done, gives, ring_run, fifo_run, run_refines,
}

-- 8, then 9, round the end of three slots.
abbrev wrapped : CircularBuffer ℕ
wrapped = record { buffer = 9 ∷ 7 ∷ 0 ∷ 8 ∷ []; head = 3; tail = 1; max_size = 4 }

wrapped-IsValid : IsValid wrapped
wrapped-IsValid = omega arith

wrap_around_test :
    enqueue wrapped 5
    ≡ some (record { buffer = 9 ∷ 5 ∷ 0 ∷ 8 ∷ []; head = 3; tail = 2; max_size = 4 })
unfolding enqueue full
wrap_around_test = refl

capacity_of_one_is_refused : create {A = ℕ} 0 1 ≡ none
unfolding create
capacity_of_one_is_refused = refl

abbrev fresh : CircularBuffer ℕ
fresh = record { buffer = 0 ∷ 0 ∷ 0 ∷ []; head = 0; tail = 0; max_size = 3 }

fresh_created : create 0 2 ≡ some fresh
unfolding create
fresh_created = refl

abbrev overfull : List (Op ℕ)
overfull = puts 7 ∷ puts 8 ∷ puts 9 ∷ gets ∷ []

overfull_answers : (ring_run 0 fresh overfull).0 ≡ done ∷ done ∷ throws ∷ gives 7 ∷ []
unfolding ring_run enqueue dequeue full empty
overfull_answers = refl

run_refines_example :
    ((ring_run 0 fresh overfull).0 ≡ (fifo_run 2 [] overfull).0)
    × (contents 0 (ring_run 0 fresh overfull).1 ≡ (fifo_run 2 [] overfull).1)
    × (size (ring_run 0 fresh overfull).1 ≡ length (fifo_run 2 [] overfull).1)
run_refines_example = run_refines 0 2 fresh overfull (omega arith) fresh_created
