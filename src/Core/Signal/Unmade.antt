-- ===== src/Core/Signal/Unmade.antt =====
-- src/core/Signal.cpp: without the action Handled no IO handler is made.
use hohnor.Prelude.{ℕ, ◌≡◌, ◌≢◌, refl, Bool, true, false, Option, none, some}
use hohnor.Core.Signal.{
  SignalAction, ignored, default, handled, Kernel, Answers, SignalHandler, handle_signal, create,
  update, update_from, in_range, leave_to_kernel,
}
use hohnor.Core.Signal.Fate.{Succeed, Listening, Obeys, handle_by_default_lem}

abbrev pub MakesNone : Option SignalHandler → Type 0
MakesNone r = (t : SignalHandler) × (r ≡ some t) × (t.io_handler ≡ none)

module _ (s : Answers) (w : Succeed s) where
  leave-MakesNone :
      (a : SignalAction) (t : SignalHandler)
      → a ≢ handled
      → in_range t.signal ≡ true
      → t.io_handler ≡ none
      → MakesNone (leave_to_kernel s a t)
  unfolding handle_signal
  leave-MakesNone ignored t n b e = (
    record t { kernel = record { ignores = true; blocked = false } },
    rw (b, handle_by_default_lem s w true t.kernel) refl,
    e,
  )
  leave-MakesNone default t n b e = (
    record t { kernel = record { ignores = false; blocked = false } },
    rw (b, handle_by_default_lem s w false t.kernel) refl,
    e,
  )
  leave-MakesNone handled t n b e = absurd (n refl)

  pub create-MakesNone :
      (k : Kernel) (signal : ℕ) (a : SignalAction) (cb : Option ℕ)
      → a ≢ handled
      → in_range signal ≡ true
      → MakesNone (create s k signal a cb)
  unfolding create
  create-MakesNone k signal ignored cb n b = leave-MakesNone ignored _ n b refl
  create-MakesNone k signal default cb n b = leave-MakesNone default _ n b refl
  create-MakesNone k signal handled cb n b = absurd (n refl)

  update_from-MakesNone :
      (quit : Bool) (old a : SignalAction) (cb cb₀ : Option ℕ) (t : SignalHandler)
      → a ≢ handled
      → in_range t.signal ≡ true
      → Listening old cb₀ t.io_handler
      → t.io_handler ≡ none
      → MakesNone (update_from s quit old a cb t)
  unfolding update_from
  update_from-MakesNone quit old handled cb cb₀ t n b l e = absurd (n refl)
  update_from-MakesNone quit handled ignored cb cb₀ t n b (h, f, _, _, _) e = absurd (cc (e, f))
  update_from-MakesNone quit handled default cb cb₀ t n b (h, f, _, _, _) e = absurd (cc (e, f))
  update_from-MakesNone quit ignored ignored cb cb₀ t n b l e = leave-MakesNone ignored t n b e
  update_from-MakesNone quit default ignored cb cb₀ t n b l e = leave-MakesNone ignored t n b e
  update_from-MakesNone quit ignored default cb cb₀ t n b l e = leave-MakesNone default t n b e
  update_from-MakesNone quit default default cb cb₀ t n b l e = leave-MakesNone default t n b e

  pub update-MakesNone :
      (quit : Bool) (a : SignalAction) (cb cb₀ : Option ℕ) (t : SignalHandler)
      → a ≢ handled
      → in_range t.signal ≡ true
      → Obeys t cb₀
      → t.io_handler ≡ none
      → MakesNone (update s quit a cb t)
  unfolding update
  update-MakesNone quit a cb cb₀ t n b (f, l) e =
      update_from-MakesNone quit t.action a cb cb₀ (record t { action = a }) n b l e
