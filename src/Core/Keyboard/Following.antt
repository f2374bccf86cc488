-- ===== src/Core/Keyboard/Following.antt =====
-- `EventLoop::handleKeyboard`: after any sequence of calls the terminal and the handler follow the last one.
use hohnor.Prelude.{ℕ, ◌≡◌, Bool, true, false, List, [], ◌∷◌, Option, none, some, ◌>>=◌, not, ◌&&◌}
use hohnor.Core.IoHandler
use hohnor.Core.IoHandler.{IoHandler, is_enabled}
use hohnor.Core.IoHandler.Outcome.{Listens, IsNotEnabled}
use hohnor.Core.Keyboard.{Terminal, Keyboard, handle_keyboard}

module _ (raw : ℕ → ℕ) (before : ℕ) where
  -- What the terminal is like when the last call was with `cb`; `before` are its first attributes.
  abbrev pub TerminalFollows : Option ℕ → Terminal → Type 0
  TerminalFollows none t = (t.interactive ≡ false) × (t.attributes ≡ before)
  TerminalFollows (some cb) t =
      (t.interactive ≡ true) × (t.attributes ≡ raw before) × (t.saved ≡ before)

  abbrev pub HandlerFollows : Option ℕ → Option IoHandler → Type 0
  HandlerFollows none h = IsNotEnabled h
  HandlerFollows (some cb) h = Listens h (some cb)

  pub record Follows (cb : Option ℕ) (k : Keyboard) : Type 0 where
    pub terminal : TerminalFollows cb k.terminal
    pub handler : HandlerFollows cb k.handler

  abbrev Goes : Option ℕ → Option Keyboard → Type 0
  Goes cb r = (k : Keyboard) × (r ≡ some k) × Follows cb k

  -- The calls of a program, each with the loop's `quit_` then.
  unfoldable pub handle_all : List (Bool × Option ℕ) → Keyboard → Option Keyboard
  handle_all [] k = some k
  handle_all ((quit, cb) ∷ calls) k = do
    k' ← handle_keyboard raw true quit cb k
    handle_all calls k'

  abbrev pub last_of : Option ℕ → List (Bool × Option ℕ) → Option ℕ
  last_of cb [] = cb
  last_of cb ((quit, new) ∷ calls) = last_of new calls

  -- Whether `quit_` is never set at a call.
  abbrev pub never_quits : List (Bool × Option ℕ) → Bool
  never_quits [] = true
  never_quits ((quit, cb) ∷ calls) = not quit && never_quits calls
