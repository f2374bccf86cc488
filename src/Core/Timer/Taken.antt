-- ===== src/Core/Timer/Taken.antt =====
-- src/core/Timer.cpp: what `handleRead` makes of the timers that it takes out, as lists.
use hohnor.Prelude.{
  ℕ, ◌≡◌, refl, Bool, true, false, List, [], ◌∷◌, ◌++◌, append_assoc, Option, none, some,
  if◌then◌else◌, ◌+◌, arith,
}
use hohnor.Core.Timer.{TimerHandler, is_repeat, run, reload_in_loop}

-- The callbacks of those that are not disabled and have one, in order.
abbrev pub callbacks_of : List TimerHandler → List ℕ
callbacks_of [] = []
callbacks_of (t ∷ ts) = elim t.callback [
  | none ↦ callbacks_of ts
  | some k ↦ if t.disabled then callbacks_of ts else k ∷ callbacks_of ts
]

-- The timers with an interval, each with its expiration later by that.
abbrev pub repeats_of : List TimerHandler → List TimerHandler
repeats_of [] = []
repeats_of (t ∷ ts) = elim t.interval [
  | none ↦ repeats_of ts
  | some d ↦ record t { expiration = t.expiration + d } ∷ repeats_of ts
]

-- The timers that are done, as they are left.
abbrev pub ended_of : List TimerHandler → List TimerHandler
ended_of [] = []
ended_of (t ∷ ts) = elim t.interval [
  | none ↦ record t { disabled = true; callback = none } ∷ ended_of ts
  | some d ↦ ended_of ts
]

-- What `run` and `reload_in_loop` come to, one timer at a time.
pub run-callbacks_of :
    (t : TimerHandler) (ts : List TimerHandler) → run t ++ callbacks_of ts ≡ callbacks_of (t ∷ ts)
unfolding run
run-callbacks_of t ts = by_fields t.disabled t.callback
  where
    by_fields :
        (d : Bool) (c : Option ℕ)
        → (if d then [] else (elim c [ none ↦ [] | some k ↦ k ∷ [] ])) ++ callbacks_of ts
          ≡ (elim c [
            | none ↦ callbacks_of ts
            | some k ↦ if d then callbacks_of ts else k ∷ callbacks_of ts
          ])
    by_fields true none = refl
    by_fields true (some k) = refl
    by_fields false none = refl
    by_fields false (some k) = refl

pub reload-repeats_of :
    (t : TimerHandler) (ts : List TimerHandler)
    → (if is_repeat t then reload_in_loop t ∷ repeats_of ts else repeats_of ts)
      ≡ repeats_of (t ∷ ts)
unfolding reload_in_loop
reload-repeats_of t ts = by_interval t.interval refl
  where
    by_interval :
        (i : Option ℕ)
        → t.interval ≡ i
        → (if is_repeat t then reload_in_loop t ∷ repeats_of ts else repeats_of ts)
          ≡ repeats_of (t ∷ ts)
    by_interval none e = ground arith
    by_interval (some d) e = ground arith

pub is_repeat-ended_of :
    (t : TimerHandler) (ts : List TimerHandler)
    → (if is_repeat t
        then ended_of ts
        else record t { disabled = true; callback = none } ∷ ended_of ts)
      ≡ ended_of (t ∷ ts)
is_repeat-ended_of t ts = by_interval t.interval refl
  where
    by_interval :
        (i : Option ℕ)
        → t.interval ≡ i
        → (if is_repeat t
            then ended_of ts
            else record t { disabled = true; callback = none } ∷ ended_of ts)
          ≡ ended_of (t ∷ ts)
    by_interval none e = ground arith
    by_interval (some d) e = ground arith

module _ {ℓ} {A : Type ℓ} where
  pub append-if :
      (b : Bool) (xs ys : List A) (y : A)
      → (if b then xs ++ y ∷ [] else xs) ++ ys ≡ xs ++ (if b then y ∷ ys else ys)
  append-if true xs ys y = append_assoc xs (y ∷ []) ys
  append-if false xs ys y = refl

  pub append-if_not :
      (b : Bool) (xs ys : List A) (y : A)
      → (if b then xs else xs ++ y ∷ []) ++ ys ≡ xs ++ (if b then ys else y ∷ ys)
  append-if_not true xs ys y = refl
  append-if_not false xs ys y = append_assoc xs (y ∷ []) ys
