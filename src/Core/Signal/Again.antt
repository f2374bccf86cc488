-- ===== src/Core/Signal/Again.antt =====
-- src/core/Signal.cpp: a signal that is handled again, after its IO handler has been made.
use hohnor.Prelude.{ℕ, ◌≡◌, ◌≢◌, refl, Bool, true, false, Option, some, ◌>>=◌, subst, sym, ap, ◌∙◌}
use hohnor.Core.IoHandler.{IoHandler, is_enabled}
use hohnor.Core.IoHandler.Outcome.{Listens, enable_lem, set_read_callback_lem, disable_lem}
use hohnor.Core.Signal.{
  SignalAction, ignored, default, handled, Kernel, Answers, SignalHandler, bare, handle_signal,
  handle_again, update_from, update, bare_callback, in_range,
}
use hohnor.Core.Signal.Fate.{
  fate, fate_of, waits_for_fd, Listening, Succeed, Obeys, made, handle_by_default_lem,
}

module _ (s : Answers) (quit : Bool) (cb : Option ℕ) where
  again :
      (old : SignalAction) (t : SignalHandler) (h : IoHandler)
      → old ≢ handled
      → t.io_handler ≡ some h
      → (t' : SignalHandler) × (update_from s quit old handled cb t ≡ some t')
        × (t'.action ≡ t.action)
        × (t'.kernel ≡ t.kernel)
        × Listens t'.io_handler (bare_callback cb)
  unfolding update_from handle_again
  again handled t h n e = absurd (n refl)
  again ignored t h n e =
      let (h', r, _, f, c) = set_read_callback_lem h (bare_callback cb) in
      let (h'', r', l) = enable_lem h' f c in
      (record t { io_handler = some h'' }, rw (e, r, r') refl, refl, refl, l)
  again default t h n e =
      let (h', r, _, f, c) = set_read_callback_lem h (bare_callback cb) in
      let (h'', r', l) = enable_lem h' f c in
      (record t { io_handler = some h'' }, rw (e, r, r') refl, refl, refl, l)

  twice :
      (t : SignalHandler) (h : IoHandler)
      → is_enabled h.status ≡ true
      → t.io_handler ≡ some h
      → (t' : SignalHandler) × (update_from s quit handled handled cb t ≡ some t')
        × (t'.kernel ≡ t.kernel)
        × Listens t'.io_handler (bare_callback cb)
  unfolding update_from
  twice t h on e =
      let (h', r, st, f, c) = set_read_callback_lem h (bare_callback cb) in
      (record t { io_handler = some h' }, rw (e, r) refl, refl, (h', refl, rw (st, on) refl, f, c))

fate_of-ne : (a : SignalAction) → a ≢ handled → fate_of a ≢ waits_for_fd
fate_of-ne handled n e = n refl
fate_of-ne ignored n e = cc
fate_of-ne default n e = cc

module _ (s : Answers) (w : Succeed s) where
  stop_handling :
      (quit : Bool) (a : SignalAction) (cb : Option ℕ) (signal : ℕ) (h : IoHandler) (k : Kernel)
      → in_range signal ≡ true
      → a ≢ handled
      → (h' : IoHandler) × (k' : Kernel) × (update_from s quit handled a cb
            (made a signal (some h) k)
          ≡ some (made a signal (some h') k'))
        × (fate k' ≡ fate_of a)
  unfolding update_from handle_signal
  stop_handling quit handled cb signal h k b n = absurd (n refl)
  stop_handling quit ignored cb signal h k b n =
      let (h', r, off) = disable_lem quit h in
      (
        h',
        record { ignores = true; blocked = false },
        rw (r, b, handle_by_default_lem s w true k) refl,
        refl,
      )
  stop_handling quit default cb signal h k b n =
      let (h', r, off) = disable_lem quit h in
      (
        h',
        record { ignores = false; blocked = false },
        rw (r, b, handle_by_default_lem s w false k) refl,
        refl,
      )

  -- A signal that is handled, then ignored or left to its default, and then handled again, is not handled:
  -- the signal keeps the fate that it had in between, and is not queued for the signalfd. And the read
  -- callback is then the bare one of the user, which does not read the signalfd, as it is if the signal is
  -- handled a second time with nothing in between.
  pub update-Again :
      (s' : Answers) (quit quit' : Bool) (a : SignalAction) (cb₀ cb₁ : Option ℕ) (k : ℕ)
      (t : SignalHandler)
      → in_range t.signal ≡ true
      → Obeys t cb₀
      → t.action ≡ handled
      → a ≢ handled
      → ((t₂ : SignalHandler) × ((update s quit a cb₁ t >>= update s' quit' handled (some k))
            ≡ some t₂)
          × (t₂.action ≡ handled)
          × (fate t₂.kernel ≡ fate_of a)
          × (fate t₂.kernel ≢ waits_for_fd)
          × Listens t₂.io_handler (some (bare k)))
        × ((t₁ : SignalHandler) × (update s quit handled (some k) t ≡ some t₁)
            × (t₁.kernel ≡ t.kernel)
            × Listens t₁.io_handler (some (bare k)))
  unfolding update
  update-Again s' quit quit' a cb₀ cb₁ k t b (f, l) e n =
      let (h, o, on, _, _) = subst (λ x. Listening x cb₀ t.io_handler) e l in
      let (h₁, k₁, r₁, f₁) = stop_handling quit a cb₁ t.signal h t.kernel b n in
      let (t₂, r₂, a₂, e₂, l₂) =
        again s' quit' (some k) a (made handled t.signal (some h₁) k₁) h₁ n refl in
      let f₂ = ap fate e₂ ∙ f₁ in
      let (t', r', e', l') = twice s quit (some k) (record t { action = handled }) h on o in
      ((t₂, rw (e, o, r₁) r₂, a₂, f₂, λ g. fate_of-ne a n (sym f₂ ∙ g), l₂), (t', rw e r', e', l'))
