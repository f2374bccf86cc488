-- ===== src/Core/Keyboard.antt =====
-- `EventLoop::handleKeyboard` of src/core/EventLoop.cpp with the terminal functions of src/io/FdUtils.cpp, in the
-- thread of a loop that has not ended.
pub mod Epoll
pub mod Following
mod Examples
use hohnor.Prelude.{ℕ, ◌+◌, Bool, true, false, Option, none, some, if◌then◌else◌, ◌>>=◌}
use hohnor.Core.IoHandler
use hohnor.Core.IoHandler.{IoHandler}

-- The attributes of a terminal are known by a number; `saved` is what `saved_attributes` holds, and
-- `reset_at_exit` counts the calls of `atexit`.
pub record Terminal : Type 0 where
  pub attributes : ℕ
  pub saved : ℕ
  pub interactive : Bool
  pub reset_at_exit : ℕ

-- The static handler and the process's terminal.
pub record Keyboard : Type 0 where
  pub handler : Option IoHandler
  pub terminal : Terminal

unfoldable pub reset_input_interactive : Terminal → Terminal
reset_input_interactive t =
    if t.interactive then record t { interactive = false; attributes = t.saved } else t

-- `raw` clears ICANON and ECHO and sets VMIN and VTIME. Where stdin is no terminal, the check fails.
unfoldable pub set_input_interactive : (ℕ → ℕ) → Bool → Terminal → Option Terminal
set_input_interactive raw is_tty t =
    if t.interactive
    then some t
    else if is_tty
    then some (record t {
      interactive = true;
      saved = t.attributes;
      reset_at_exit = t.reset_at_exit + 1;
      attributes = raw t.attributes;
    })
    else none

-- The two uses of `handleKeyboard` with a callback: the handler is there, or it is made.
unfoldable pub listen : (ℕ → ℕ) → Bool → ℕ → Option IoHandler → Terminal → Option Keyboard
listen raw is_tty cb (some h) t = do
  h' ← IoHandler.set_read_callback (some cb) h
  h'' ← IoHandler.enable h'
  t' ← set_input_interactive raw is_tty t
  some (record { handler = some h''; terminal = t' })
listen raw is_tty cb none t = do
  t' ← set_input_interactive raw is_tty t
  h ← IoHandler.set_read_callback (some cb) IoHandler.create
  h' ← IoHandler.enable h
  some (record { handler = some h'; terminal = t' })

-- And with `nullptr`; `quit` is the loop's `quit_`.
unfoldable pub stop_listening : Bool → Option IoHandler → Terminal → Option Keyboard
stop_listening quit none t = some (record { handler = none; terminal = t })
stop_listening quit (some h) t = do
  h' ← IoHandler.set_read_callback none h
  h'' ← IoHandler.disable quit h'
  some (record { handler = some h''; terminal = reset_input_interactive t })

unfoldable pub handle_keyboard : (ℕ → ℕ) → Bool → Bool → Option ℕ → Keyboard → Option Keyboard
handle_keyboard raw is_tty quit none k = stop_listening quit k.handler k.terminal
handle_keyboard raw is_tty quit (some cb) k = listen raw is_tty cb k.handler k.terminal
