-- ===== src/Core/Timer/Sharing/Carries.antt =====
-- src/core/Timer.cpp: which timers would run a callback, and what keeps it from it.
use hohnor.Prelude.{
  ℕ, ◌≡◌, refl, ap, Bool, false, not, ◌&&◌, List, [], ◌∷◌, Option, none, some, ◌==◌, arith, if_elim,
  subst,
}
use hohnor.Common.BinaryHeap.Items.{count, one_if, one_if-zero}
use hohnor.Common.BinaryHeap.Mapped.{count-append_list}
use hohnor.Core.Timer.{TimerHandler, timer_cmp_less_than, is_repeat, run, disable, reload_in_loop}
use hohnor.Core.Timer.Taken.{callbacks_of, repeats_of, run-callbacks_of, reload-repeats_of}
use hohnor.Core.Timer.Sharing.{
  Step, add_one, enter_one, read_at, disable_one, update_one, if_handle, update_callback,
}

abbrev pub is_callback : ℕ → Option ℕ → Bool
is_callback k none = false
is_callback k (some c) = c == k

-- Whether the timer would run `k`.
abbrev pub carries : ℕ → TimerHandler → Bool
carries k t = not t.disabled && is_callback k t.callback

-- Whether a step brings `k` in.
abbrev pub brings : ℕ → Step → Bool
brings k (add_one cb when interval) = is_callback k cb
brings k enter_one = false
brings k (read_at now) = false
brings k (disable_one s) = false
brings k (update_one s cb) = is_callback k cb

pub run-carries : (k : ℕ) (t : TimerHandler) → carries k t ≡ false → count (λ c. c == k) (run t) ≡ 0
unfolding run
run-carries k t h = ground arith

pub reload-carries : (k : ℕ) (t : TimerHandler) → carries k (reload_in_loop t) ≡ carries k t
unfolding reload_in_loop
reload-carries k t = ground arith

pub disable-carries : (k : ℕ) (t : TimerHandler) → carries k (disable t) ≡ false
unfolding disable
disable-carries k t = ground arith

pub update-carries :
    (k : ℕ) (cb : Option ℕ) (t : TimerHandler)
    → is_callback k cb ≡ false
    → carries k (update_callback cb t) ≡ false
unfolding update_callback
update-carries k cb t h = ground arith

pub callbacks_of-silent :
    (k : ℕ) (ts : List TimerHandler)
    → count (carries k) ts ≡ 0
    → count (λ c. c == k) (callbacks_of ts) ≡ 0
callbacks_of-silent k [] h = refl
callbacks_of-silent k (t ∷ ts) h = omega (
  arith,
  ap (count (λ c. c == k)) (run-callbacks_of t ts),
  count-append_list (λ c. c == k) (run t) (callbacks_of ts),
  run-carries k t (one_if-zero (carries k t) (count (carries k) ts) h),
  callbacks_of-silent k ts (omega (arith, h)),
)

pub repeats_of-silent :
    (k : ℕ) (ts : List TimerHandler)
    → count (carries k) ts ≡ 0
    → count (carries k) (repeats_of ts) ≡ 0
repeats_of-silent k [] h = refl
repeats_of-silent k (t ∷ ts) h =
    let rest = repeats_of-silent k ts (omega (arith, h)) in
    subst (λ l. count (carries k) l ≡ 0) (reload-repeats_of t ts)
      (if_elim (λ l. count (carries k) l ≡ 0) (is_repeat t)
        (λ _. omega (arith, rest, h, ap one_if (reload-carries k t))) (λ _. rest))

-- The calls through a handle keep the order of the heap.
pub if_handle-keeps :
    (s : ℕ) (change : TimerHandler → TimerHandler)
    → ((t : TimerHandler)
        → ((change t).expiration ≡ t.expiration) × ((change t).sequence ≡ t.sequence))
    → (t : TimerHandler)
    → ((if_handle s change t).expiration ≡ t.expiration)
      × ((if_handle s change t).sequence ≡ t.sequence)
if_handle-keeps s change k t =
    if_elim (λ (u : TimerHandler). (u.expiration ≡ t.expiration) × (u.sequence ≡ t.sequence))
      (t.sequence == s) (λ _. k t) (λ _. (refl, refl))

pub same_keys :
    (g : TimerHandler → TimerHandler)
    → ((t : TimerHandler) → ((g t).expiration ≡ t.expiration) × ((g t).sequence ≡ t.sequence))
    → (a b : TimerHandler) → timer_cmp_less_than (g a) (g b) ≡ timer_cmp_less_than a b
same_keys g k a b = let (ea, sa) = k a in let (eb, sb) = k b in rw (ea, sa, eb, sb) refl

pub disable-keeps :
    (t : TimerHandler)
    → ((disable t).expiration ≡ t.expiration) × ((disable t).sequence ≡ t.sequence)
unfolding disable
disable-keeps t = (ground arith, ground arith)

pub update_callback-keeps :
    (cb : Option ℕ) (t : TimerHandler)
    → ((update_callback cb t).expiration ≡ t.expiration)
      × ((update_callback cb t).sequence ≡ t.sequence)
unfolding update_callback
update_callback-keeps cb t = (ground arith, ground arith)
