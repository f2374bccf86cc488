-- ===== src/Core/Keyboard/Epoll.antt =====
-- `EventLoop::handleKeyboard`: what epoll holds, so long as the loop has not been asked to end.
use hohnor.Prelude.{ℕ, ◌≡◌, refl, true, false, Option, none, some, arith, subst, sym, some-inj}
use hohnor.Core.IoHandler
use hohnor.Core.IoHandler.{IoHandler, is_enabled}
use hohnor.Core.IoHandler.Registration.{
  InSync, enables, disables, read_callback, apply, apply-Keeps, create-InSync, replay,
}
use hohnor.Core.IoHandler.Outcome.{Listens, IsNotEnabled}
use hohnor.Core.Keyboard.{
  Terminal, Keyboard, reset_input_interactive, set_input_interactive, listen, stop_listening,
  handle_keyboard,
}

-- The commands of the handler, if there is one, are accepted, and leave what it wants registered.
abbrev pub Synced : Option IoHandler → Type 0
Synced none = Unit {0}
Synced (some h) = InSync h

listen-Synced :
    (raw : ℕ → ℕ) (cb : ℕ) (h : Option IoHandler) (t t' : Terminal)
    → set_input_interactive raw true t ≡ some t'
    → Synced h
    → (k : Keyboard) × (listen raw true cb h t ≡ some k) × Synced k.handler
unfolding listen apply
listen-Synced raw cb none t t' e s =
    let (h, r, s') = apply-Keeps IoHandler.create (read_callback (some cb)) refl create-InSync in
    let (h', r', s'') = apply-Keeps h enables refl s' in
    (record { handler = some h'; terminal = t' }, rw (e, r, r') refl, s'')
listen-Synced raw cb (some h) t t' e s =
    let (h', r, s') = apply-Keeps h (read_callback (some cb)) refl s in
    let (h'', r', s'') = apply-Keeps h' enables refl s' in
    (record { handler = some h''; terminal = t' }, rw (r, r', e) refl, s'')

stop_listening-Synced :
    (h : Option IoHandler) (t : Terminal)
    → Synced h
    → (k : Keyboard) × (stop_listening false h t ≡ some k) × Synced k.handler
unfolding stop_listening apply
stop_listening-Synced none t s = (record { handler = none; terminal = t }, refl, tt)
stop_listening-Synced (some h) t s =
    let (h', r, s') = apply-Keeps h (read_callback none) refl s in
    let (h'', r', s'') = apply-Keeps h' (disables false) refl s' in
    (record { handler = some h''; terminal = reset_input_interactive t }, rw (r, r') refl, s'')

-- A call that comes when `quit_` is not set.
pub handle_keyboard-Synced :
    (raw : ℕ → ℕ) (cb : Option ℕ) (k : Keyboard) (t' : Terminal)
    → set_input_interactive raw true k.terminal ≡ some t'
    → Synced k.handler
    → (k' : Keyboard) × (handle_keyboard raw true false cb k ≡ some k') × Synced k'.handler
unfolding handle_keyboard
handle_keyboard-Synced raw none k t' e s = stop_listening-Synced k.handler k.terminal s
handle_keyboard-Synced raw (some cb) k t' e s = listen-Synced raw cb k.handler k.terminal t' e s

-- What epoll holds for stdin when the last call was with `cb`: the handler's events, or nothing.
abbrev pub EpollFollows : Option ℕ → Option IoHandler → Type 0
EpollFollows none none = Unit {0}
EpollFollows none (some h) = replay h.ctl_log ≡ some none
EpollFollows (some cb) none = ⊥
EpollFollows (some cb) (some h) = replay h.ctl_log ≡ some (some h.events)

pub not_held : (o : Option IoHandler) → IsNotEnabled o → Synced o → EpollFollows none o
not_held none n s = tt
not_held (some h) n s = ground arith

pub held :
    (o : Option IoHandler) (cb : ℕ) → Listens o (some cb) → Synced o → EpollFollows (some cb) o
held none cb (h, e, _, _, _) s = cc e
held (some h) cb (g, e, on, _, _) s =
    held_by (subst (λ i. is_enabled i.status ≡ true) (sym (some-inj h g e)) on)
  where
    held_by : is_enabled h.status ≡ true → replay h.ctl_log ≡ some (some h.events)
    held_by on = ground arith
