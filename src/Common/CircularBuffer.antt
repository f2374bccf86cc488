-- ===== src/Common/CircularBuffer.antt =====
-- include/hohnor/common/CircularBuffer.h: a ring over `max_size` slots, one of which stays free.
pub mod Contents
pub mod Fifo
pub mod Runs
mod Examples
use hohnor.Prelude.{
  ℕ, ◌+◌, ◌-◌, ◌%◌, ◌≡◌, Bool, List, [], ◌∷◌, Option, none, some, if◌then◌else◌, ◌==◌, leb, ltb,
  add64, sub64, set, get_or, replicate,
}

pub record CircularBuffer {ℓ} (A : Type ℓ) : Type ℓ where
  pub buffer : List A
  pub head : ℕ
  pub tail : ℕ
  pub max_size : ℕ

module _ {ℓ} {A : Type ℓ} where
  -- The constructor; `item` is `T()`. Its `assert(maxSize >= 2)` is the `none`.
  unfoldable pub create : A → ℕ → Option (CircularBuffer A)
  create item size =
      if leb 2 size
      then some (record {
        buffer = replicate (add64 size 1) item;
        head = 0;
        tail = 0;
        max_size = add64 size 1;
      })
      else none

  unfoldable pub empty : CircularBuffer A → Bool
  empty b = b.head == b.tail

  unfoldable pub full : CircularBuffer A → Bool
  full b = add64 b.tail 1 % b.max_size == b.head

  unfoldable pub size : CircularBuffer A → ℕ
  size b = if leb b.head b.tail then sub64 b.tail b.head else sub64 b.max_size (sub64 b.head b.tail)

  unfoldable pub capacity : CircularBuffer A → ℕ
  capacity b = b.max_size

  -- `none` is the `runtime_error`. The two overloads differ in copying or moving the item.
  unfoldable pub enqueue : CircularBuffer A → A → Option (CircularBuffer A)
  unfolding full
  enqueue b item =
      if full b
      then none
      else some (record b { buffer = set b.buffer b.tail item; tail = add64 b.tail 1 % b.max_size })

  -- The slot that is given up is overwritten by a default item.
  unfoldable pub dequeue : A → CircularBuffer A → Option (A × CircularBuffer A)
  unfolding empty
  dequeue default b =
      if empty b
      then none
      else some (
        get_or b.buffer b.head default,
        record b { buffer = set b.buffer b.head default; head = add64 b.head 1 % b.max_size },
      )

  unfoldable pub front : A → CircularBuffer A → A
  front default b = get_or b.buffer b.head default
