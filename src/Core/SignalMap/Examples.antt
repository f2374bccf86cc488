-- ===== src/Core/SignalMap/Examples.antt =====
-- Calls for two signals, and an instance of the theorem.
use hohnor.Prelude.{ℕ, ◌≡◌, refl, inl, inr, true, false, List, [], ◌∷◌, Option, none, some, arith}
use hohnor.Core.Signal.{SignalAction, ignored, default, handled, Kernel, Answers, SignalHandler}
use hohnor.Core.Signal.Fate.{Succeed}
use hohnor.Core.SignalMap.{Call, handle_all, find_handler}
use hohnor.Core.SignalMap.Latest.{Allowed, StandsFor, last_calls, handle_all-latest}

abbrev untouched : ℕ → Kernel
untouched s = record { ignores = false; blocked = false }

abbrev good : Answers
good = record { sigaction = true; sigprocmask = true; signalfd = some 9 }

good-Succeed : Succeed good
good-Succeed = record { sigaction = refl; sigprocmask = refl; signalfd = (9, refl, omega arith) }

abbrev call : ℕ → SignalAction → Option ℕ → Call
call s a cb = record { signal = s; action = a; callback = cb; quit = false; answers = good }

abbrev calls : List Call
calls =
    call 2 handled (some 7)
    ∷ call 15 ignored none
    ∷ call 2 default none
    ∷ call 15 handled (some 8)
    ∷ []

calls-Allowed : Allowed (λ s. false) calls
calls-Allowed = (
  refl,
  good-Succeed,
  inr refl,
  (
    refl,
    good-Succeed,
    inl (λ e. cc e),
    (refl, good-Succeed, inl (λ e. cc e), (refl, good-Succeed, inr refl, tt)),
  ),
)

handle_all-latest_example :
    (r : List SignalHandler) × (handle_all untouched calls [] ≡ some r)
    × ((s : ℕ) → StandsFor s (last_calls (λ s. none) calls s) (find_handler s r))
handle_all-latest_example = handle_all-latest untouched calls calls-Allowed
