-- ===== src/Core/Signal/Examples.antt =====
-- Signals.
use hohnor.Prelude.{◌≡◌, ◌≢◌, refl, true, false, none, some, ◌>>=◌, inr, arith}
use hohnor.Core.IoHandler
use hohnor.Core.IoHandler.{IoHandler, enabled, is_enabled}
use hohnor.Core.IoHandler.Outcome.{Listens}
use hohnor.Core.Signal.{
  ignored, handled, Answers, SignalHandler, bare, reads_first, update, create, handle_by_fd,
  handle_signal, update_from, handle_again,
}
use hohnor.Core.Signal.Fate.{Set, fate, fate_of, waits_for_fd, update-Obeys}
use hohnor.Core.Signal.Again.{update-Again}

abbrev all_well : Answers
all_well = record { sigaction = true; sigprocmask = true; signalfd = some 5 }

abbrev unmasked : Answers
unmasked = record all_well { sigprocmask = false }

abbrev ignoring : SignalHandler
ignoring = record {
  action = ignored;
  signal = 10;
  io_handler = none;
  kernel = record { ignores = true; blocked = false };
}

abbrev listener : IoHandler
listener = record IoHandler.create {
  events = record { read = true; write = false; close = false; error = false };
  status = enabled;
  read_callback = some 8;
}

abbrev handling : SignalHandler
handling = record {
  action = handled;
  signal = 10;
  io_handler = some listener;
  kernel = record { ignores = false; blocked = true };
}

out_of_range : create all_well (record { ignores = false; blocked = false }) 65 handled none ≡ none
unfolding create handle_signal
out_of_range = refl

mask_fails : update unmasked false handled none ignoring ≡ none
unfolding update update_from handle_again handle_signal handle_by_fd
mask_fails = refl

update-Obeys_example : Set (update all_well false handled (some 3) ignoring) 10 handled (some 3)
update-Obeys_example =
    update-Obeys all_well false handled none (some 3) ignoring
      (record { sigaction = refl; sigprocmask = refl; signalfd = (5, refl, omega arith) }) refl
      (refl, tt) (inr refl)

update-Again_example :
    ((t₂ : SignalHandler) × ((update all_well false ignored none handling
          >>= update all_well false handled (some 4))
        ≡ some t₂)
      × (t₂.action ≡ handled)
      × (fate t₂.kernel ≡ fate_of ignored)
      × (fate t₂.kernel ≢ waits_for_fd)
      × Listens t₂.io_handler (some (bare 4)))
    × ((t₁ : SignalHandler) × (update all_well false handled (some 4) handling ≡ some t₁)
        × (t₁.kernel ≡ handling.kernel)
        × Listens t₁.io_handler (some (bare 4)))
unfolding reads_first IoHandler.create
update-Again_example =
    update-Again all_well
      (record { sigaction = refl; sigprocmask = refl; signalfd = (5, refl, omega arith) }) all_well
      false false ignored (some 3) none 4 handling refl (refl, (listener, refl, refl, refl, refl))
      refl (λ e. cc)
