-- ===== src/Core/Signal.antt =====
-- src/core/Signal.cpp, in the thread of a loop that has not ended: a handler for one signal, over the IO
-- handler of its signalfd, with what the kernel keeps for that signal.
pub mod Fate
pub mod Unmade
pub mod Again
mod Examples
use hohnor.Prelude.{
  ℕ, ◌+◌, ◌*◌, Bool, true, false, ◌&&◌, Option, none, some, ltb, if◌then◌else◌, ◌>>=◌,
}
use hohnor.Core.IoHandler
use hohnor.Core.IoHandler.{IoHandler}

pub data SignalAction : Type 0 where
  ignored default handled : SignalAction

-- sigaction(2) and sigprocmask(2): whether the signal is ignored (SIG_IGN) and not SIG_DFL, and whether it is
-- blocked.
pub record Kernel : Type 0 where
  pub ignores : Bool
  pub blocked : Bool

-- What the system calls answer; `signalfd` is none for -1.
pub record Answers : Type 0 where
  pub sigaction : Bool
  pub sigprocmask : Bool
  pub signalfd : Option ℕ

pub record SignalHandler : Type 0 where
  pub action : SignalAction
  pub signal : ℕ
  pub io_handler : Option IoHandler
  pub kernel : Kernel

-- The read callbacks of the IO handler: the function made in `createIOHandler`, which reads the signalfd and
-- then calls `cb`, has an even number, and a callback of the user itself an odd one.
unfoldable pub reads_first : Option ℕ → ℕ
reads_first none = 0
reads_first (some k) = 2 * (k + 1)

unfoldable pub bare : ℕ → ℕ
bare k = 2 * k + 1

-- `::sigaction`, whose failure is only logged.
abbrev pub set_ignores : Answers → Bool → Kernel → Kernel
set_ignores s on k = if s.sigaction then record k { ignores = on } else k

-- `sigprocmask`, whose failure aborts.
abbrev pub set_blocked : Answers → Bool → Kernel → Option Kernel
set_blocked s on k = if s.sigprocmask then some (record k { blocked = on }) else none

-- The two parts of `handleSignal`, for a signal in range; the first gives the signalfd.
unfoldable pub handle_by_fd : Answers → Kernel → Option (Kernel × ℕ)
handle_by_fd s k = do
  k' ← set_blocked s true (set_ignores s false k)
  fd ← s.signalfd
  some (k', fd)

unfoldable pub handle_by_default : Answers → Bool → Kernel → Option Kernel
handle_by_default s ignore k = do k' ← set_blocked s false k; some (set_ignores s ignore k')

abbrev pub in_range : ℕ → Bool
in_range signal = ltb 0 signal && ltb signal 65

-- `handleSignal`: the kernel's state, and the signalfd if one was made.
unfoldable pub handle_signal : Answers → ℕ → SignalAction → Kernel → Option (Kernel × Option ℕ)
handle_signal s signal handled k =
    if in_range signal then (do (k', fd) ← handle_by_fd s k; some (k', some fd)) else none
handle_signal s signal ignored k =
    if in_range signal then (do k' ← handle_by_default s true k; some (k', none)) else none
handle_signal s signal default k =
    if in_range signal then (do k' ← handle_by_default s false k; some (k', none)) else none

-- The IO handler that `createIOHandler` makes for a descriptor.
unfoldable pub create_io_handler : ℕ → Option ℕ → Option IoHandler
create_io_handler fd cb =
    if ltb 0 fd
    then (do
      h ← IoHandler.set_read_callback (some (reads_first cb)) IoHandler.create
      IoHandler.enable h)
    else none

abbrev pub with_fd : Option ℕ → Option ℕ → SignalHandler → Option SignalHandler
with_fd none cb t = none
with_fd (some fd) cb t = do h ← create_io_handler fd cb; some (record t { io_handler = some h })

-- The action `handled` for a handler that has no IO handler yet.
abbrev pub start_handling : Answers → Option ℕ → SignalHandler → Option SignalHandler
start_handling s cb t = do
  (k, fd) ← handle_signal s t.signal handled t.kernel
  with_fd fd cb (record t { kernel = k })

abbrev pub leave_to_kernel : Answers → SignalAction → SignalHandler → Option SignalHandler
leave_to_kernel s a t = do
  (k, fd) ← handle_signal s t.signal a t.kernel
  some (record t { kernel = k })

-- The constructor, by the state that the kernel has for the signal.
unfoldable pub create : Answers → Kernel → ℕ → SignalAction → Option ℕ → Option SignalHandler
create s k signal handled cb =
    start_handling s cb
      (record { action = handled; signal = signal; io_handler = none; kernel = k })
create s k signal ignored cb =
    leave_to_kernel s ignored
      (record { action = ignored; signal = signal; io_handler = none; kernel = k })
create s k signal default cb =
    leave_to_kernel s default
      (record { action = default; signal = signal; io_handler = none; kernel = k })

-- A call through a null `ioHandler_` is none.
abbrev pub on_io :
    Option IoHandler → (IoHandler → Option IoHandler) → SignalHandler → Option SignalHandler
on_io none f t = none
on_io (some h) f t = do h' ← f h; some (record t { io_handler = some h' })

abbrev pub bare_callback : Option ℕ → Option ℕ
bare_callback none = none
bare_callback (some k) = some (bare k)

-- The branch of `update` from Ignored or Default to Handled.
unfoldable pub handle_again :
    Answers → Option ℕ → Option IoHandler → SignalHandler → Option SignalHandler
handle_again s cb none t = start_handling s cb t
handle_again s cb (some h) t =
    on_io (some h) (λ h. IoHandler.set_read_callback (bare_callback cb) h >>= IoHandler.enable) t

-- `update` by the old action and the new one, after `action_` is set; `quit` is the loop's `quit_`.
unfoldable pub update_from :
    Answers → Bool → SignalAction → SignalAction → Option ℕ → SignalHandler → Option SignalHandler
update_from s quit handled handled cb t =
    on_io t.io_handler (IoHandler.set_read_callback (bare_callback cb)) t
update_from s quit handled ignored cb t = do
  t' ← on_io t.io_handler (IoHandler.disable quit) t
  leave_to_kernel s ignored t'
update_from s quit handled default cb t = do
  t' ← on_io t.io_handler (IoHandler.disable quit) t
  leave_to_kernel s default t'
update_from s quit _ handled cb t = handle_again s cb t.io_handler t
update_from s quit _ a cb t = leave_to_kernel s a t

unfoldable pub update :
    Answers → Bool → SignalAction → Option ℕ → SignalHandler → Option SignalHandler
unfolding update_from
update s quit a cb t = update_from s quit t.action a cb (record t { action = a })

unfoldable pub disable : Answers → SignalHandler → Option SignalHandler
disable s t = leave_to_kernel s default (record t { action = default })
