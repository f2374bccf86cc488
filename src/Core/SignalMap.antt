-- ===== src/Core/SignalMap.antt =====
-- `EventLoop::handleSignal` of src/core/EventLoop.cpp: the handlers of the signals, in the thread of a loop that
-- has not ended.
pub mod Latest
mod Examples
use hohnor.Prelude.{
  ℕ, Bool, true, false, List, [], ◌∷◌, Option, none, some, if◌then◌else◌, ◌==◌, ◌>>=◌,
}
use hohnor.Core.Signal
use hohnor.Core.Signal.{SignalAction, SignalHandler, Kernel, Answers}

-- `signalMap_`, each handler under its signal: `find` and the assignment.
unfoldable pub find_handler : ℕ → List SignalHandler → Option SignalHandler
find_handler signal [] = none
find_handler signal (t ∷ ts) = if t.signal == signal then some t else find_handler signal ts

unfoldable pub set_handler : ℕ → SignalHandler → List SignalHandler → List SignalHandler
set_handler signal t' [] = t' ∷ []
set_handler signal t' (t ∷ ts) =
    if t.signal == signal then t' ∷ ts else t ∷ set_handler signal t' ts

-- A call, with what the system calls answer to it; `quit` is the loop's `quit_`.
pub record Call : Type 0 where
  pub signal : ℕ
  pub action : SignalAction
  pub callback : Option ℕ
  pub quit : Bool
  pub answers : Answers

-- What the call makes of the handler that is there; `kernel` is what the process starts with.
unfoldable pub next_handler : (ℕ → Kernel) → Call → Option SignalHandler → Option SignalHandler
next_handler kernel c none = Signal.create c.answers (kernel c.signal) c.signal c.action c.callback
next_handler kernel c (some t) = Signal.update c.answers c.quit c.action c.callback t

unfoldable pub handle_signal :
    (ℕ → Kernel) → Call → List SignalHandler → Option (List SignalHandler)
handle_signal kernel c signals = do
  t ← next_handler kernel c (find_handler c.signal signals)
  some (set_handler c.signal t signals)

unfoldable pub handle_all :
    (ℕ → Kernel) → List Call → List SignalHandler → Option (List SignalHandler)
handle_all kernel [] signals = some signals
handle_all kernel (c ∷ calls) signals = do
  signals' ← handle_signal kernel c signals
  handle_all kernel calls signals'
