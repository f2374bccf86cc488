-- ===== src/Core/Signal/Fate.antt =====
-- src/core/Signal.cpp: what becomes of a signal, as sigaction(2), sigprocmask(2) and signalfd(2) have it.
use hohnor.Prelude.{
  ℕ, ◌<◌, ◌≡◌, ◌≢◌, refl, Bool, true, false, Option, none, some, if◌then◌else◌, lt→ltb, inl, inr,
  subst, ◌⊎◌,
}
use hohnor.Core.IoHandler
use hohnor.Core.IoHandler.{IoHandler, is_enabled}
use hohnor.Core.IoHandler.Outcome.{
  Listens, IsNotEnabled, enable_lem, set_read_callback_lem, disable_lem,
}
use hohnor.Core.Signal.{
  SignalAction, ignored, default, handled, Kernel, Answers, SignalHandler, reads_first,
  handle_by_fd, handle_by_default, handle_signal, create_io_handler, create, handle_again,
  update_from, update, in_range, start_handling, leave_to_kernel,
}

-- A signal that is not ignored is delivered at once, or waits for the signalfd while it is blocked.
pub data Fate : Type 0 where
  dropped default_action waits_for_fd : Fate

abbrev pub fate : Kernel → Fate
fate k = if k.ignores then dropped else if k.blocked then waits_for_fd else default_action

abbrev pub fate_of : SignalAction → Fate
fate_of ignored = dropped
fate_of default = default_action
fate_of handled = waits_for_fd

-- System calls that succeed.
pub record Succeed (s : Answers) : Type 0 where
  pub sigaction : s.sigaction ≡ true
  pub sigprocmask : s.sigprocmask ≡ true
  pub signalfd : (fd : ℕ) × (s.signalfd ≡ some fd) × (0 < fd)

abbrev pub Listening : SignalAction → Option ℕ → Option IoHandler → Type 0
Listening handled cb o = Listens o (some (reads_first cb))
Listening ignored cb o = IsNotEnabled o
Listening default cb o = IsNotEnabled o

abbrev pub Obeys : SignalHandler → Option ℕ → Type 0
Obeys t cb = (fate t.kernel ≡ fate_of t.action) × Listening t.action cb t.io_handler

-- `r` succeeds with a handler whose action is `a` and that obeys it.
abbrev pub Set : Option SignalHandler → ℕ → SignalAction → Option ℕ → Type 0
Set r signal a cb =
    (t : SignalHandler) × (r ≡ some t) × (t.action ≡ a) × (t.signal ≡ signal) × Obeys t cb

abbrev pub made : SignalAction → ℕ → Option IoHandler → Kernel → SignalHandler
made a signal o k = record { action = a; signal = signal; io_handler = o; kernel = k }

module _ (s : Answers) (w : Succeed s) where
  pub handle_by_default_lem :
      (ignore : Bool) (k : Kernel)
      → handle_by_default s ignore k ≡ some (record { ignores = ignore; blocked = false })
  unfolding handle_by_default
  handle_by_default_lem ignore k = rw (w.sigprocmask, w.sigaction) refl

  handle_by_fd_lem :
      (k : Kernel)
      → handle_by_fd s k ≡ some (record { ignores = false; blocked = true }, w.signalfd.0)
  unfolding handle_by_fd
  handle_by_fd_lem k = rw (w.sigprocmask, w.sigaction, w.signalfd.1) refl

  create_io_handler_lem :
      (cb : Option ℕ)
      → (h : IoHandler) × (create_io_handler w.signalfd.0 cb ≡ some h)
        × Listens (some h) (some (reads_first cb))
  unfolding create_io_handler
  create_io_handler_lem cb =
      let (h, r, _, e, c) = set_read_callback_lem IoHandler.create (some (reads_first cb)) in
      let (h', r', l) = enable_lem h e c in (h', rw (lt→ltb _ _ w.signalfd.2, r) r', l)

  module _ (signal : ℕ) (b : in_range signal ≡ true) where
    start_handling_lem :
        (k : Kernel) (cb : Option ℕ)
        → Set (start_handling s cb (made handled signal none k)) signal handled cb
    unfolding handle_signal
    start_handling_lem k cb =
        let (h, r, l) = create_io_handler_lem cb in
        (
          made handled signal (some h) (record { ignores = false; blocked = true }),
          rw (b, handle_by_fd_lem k, r) refl,
          refl,
          refl,
          (refl, l),
        )

    leave_lem :
        (k : Kernel) (o : Option IoHandler) (cb : Option ℕ) (a : SignalAction)
        → a ≢ handled
        → IsNotEnabled o
        → Set (leave_to_kernel s a (made a signal o k)) signal a cb
    unfolding handle_signal
    leave_lem k o cb ignored n off = (
      made ignored signal o (record { ignores = true; blocked = false }),
      rw (b, handle_by_default_lem true k) refl,
      refl,
      refl,
      (refl, off),
    )
    leave_lem k o cb default n off = (
      made default signal o (record { ignores = false; blocked = false }),
      rw (b, handle_by_default_lem false k) refl,
      refl,
      refl,
      (refl, off),
    )
    leave_lem k o cb handled n off = absurd (n refl)

    -- A new handler, whatever the kernel had for the signal.
    pub create-Obeys :
        (k : Kernel) (a : SignalAction) (cb : Option ℕ) → Set (create s k signal a cb) signal a cb
    unfolding create
    create-Obeys k handled cb = start_handling_lem k cb
    create-Obeys k ignored cb = leave_lem k none cb ignored (λ e. cc) tt
    create-Obeys k default cb = leave_lem k none cb default (λ e. cc) tt

    to_kernel :
        (quit : Bool) (old : SignalAction) (o : Option IoHandler) (k : Kernel) (cb₀ cb : Option ℕ)
        (a : SignalAction)
        → a ≢ handled
        → Listening old cb₀ o
        → Set (update_from s quit old a cb (made a signal o k)) signal a cb
    unfolding update_from
    to_kernel quit old o k cb₀ cb handled n l = absurd (n refl)
    to_kernel quit ignored o k cb₀ cb ignored n l = leave_lem k o cb ignored n l
    to_kernel quit default o k cb₀ cb ignored n l = leave_lem k o cb ignored n l
    to_kernel quit ignored o k cb₀ cb default n l = leave_lem k o cb default n l
    to_kernel quit default o k cb₀ cb default n l = leave_lem k o cb default n l
    to_kernel quit handled o k cb₀ cb ignored n (h, e, _, _, _) =
        let (h', r, off) = disable_lem quit h in rw (e, r) (leave_lem k (some h') cb ignored n off)
    to_kernel quit handled o k cb₀ cb default n (h, e, _, _, _) =
        let (h', r, off) = disable_lem quit h in rw (e, r) (leave_lem k (some h') cb default n off)

    -- The action `handled` where no IO handler has been made before.
    first_handled :
        (quit : Bool) (old : SignalAction) (k : Kernel) (cb : Option ℕ)
        → old ≢ handled
        → Set (update_from s quit old handled cb (made handled signal none k)) signal handled cb
    unfolding update_from handle_again
    first_handled quit handled k cb n = absurd (n refl)
    first_handled quit ignored k cb n = start_handling_lem k cb
    first_handled quit default k cb n = start_handling_lem k cb

-- The first update of a new handler, or any update that does not ask for `Handled`: whatever the action was,
-- with system calls that succeed, the signal then has the fate that the action stands for, and the IO
-- handler listens for it, with a callback that reads the signalfd first, exactly if the action is `Handled`.
pub update-Obeys :
    (s : Answers) (quit : Bool) (a : SignalAction) (cb₀ cb : Option ℕ) (t : SignalHandler)
    → Succeed s
    → in_range t.signal ≡ true
    → Obeys t cb₀
    → (a ≢ handled) ⊎ (t.io_handler ≡ none)
    → Set (update s quit a cb t) t.signal a cb
unfolding update
update-Obeys s quit a cb₀ cb t w b (f, l) (inl n) =
    to_kernel s w t.signal b quit t.action t.io_handler t.kernel cb₀ cb a n l
update-Obeys s quit ignored cb₀ cb t w b (f, l) (inr e) =
    to_kernel s w t.signal b quit t.action t.io_handler t.kernel cb₀ cb ignored (λ e. cc) l
update-Obeys s quit default cb₀ cb t w b (f, l) (inr e) =
    to_kernel s w t.signal b quit t.action t.io_handler t.kernel cb₀ cb default (λ e. cc) l
update-Obeys s quit handled cb₀ cb t w b (f, l) (inr e) = rw e (
    first_handled s w t.signal b quit t.action t.kernel cb
      λ h. not_listening t.action h (subst (Listening t.action cb₀) e l))
  where
    not_listening : (x : SignalAction) → x ≡ handled → Listening x cb₀ none → ⊥
    not_listening handled h l = cc l.1
    not_listening ignored h l = cc
    not_listening default h l = cc
