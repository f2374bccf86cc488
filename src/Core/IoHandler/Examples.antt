-- ===== src/Core/IoHandler/Examples.antt =====
-- Tests of src/core/IOHandler.cpp, and instances of its theorems.
use hohnor.Prelude.{ℕ, ◌≡◌, refl, Bool, true, false, ◌++◌, List, [], ◌∷◌, none, some, if◌then◌else◌}
use hohnor.Core.IoHandler.{
  IoHandler, enabled, disabled, disable, clean_callbacks, add, modify, create, run, is_enabled,
  set_read_callback, enable, set_write_event,
}
use hohnor.Core.IoHandler.Registration.{
  Call, enables, read_callback, write_event, apply, calls, replay, calls-InSync, never_quits,
  LeftBehind,
}
use hohnor.Core.IoHandler.Dispatch.{run_stops}

abbrev script : List Call
script = read_callback (some 1) ∷ enables ∷ write_event true ∷ []

abbrev ready : IoHandler
ready = record {
  events = record { read = true; write = true; close = false; error = false };
  revents = record { in_ = true; pri = false; out = true; hup = true; rdhup = false; err = true };
  status = enabled;
  read_callback = some 1;
  write_callback = some 2;
  close_callback = some 3;
  error_callback = some 4;
  ctl_log = [];
}

abbrev built : IoHandler
built = record {
  events = record { read = true; write = true; close = false; error = false };
  revents = record {
    in_ = false;
    pri = false;
    out = false;
    hup = false;
    rdhup = false;
    err = false;
  };
  status = enabled;
  read_callback = some 1;
  write_callback = none;
  close_callback = none;
  error_callback = none;
  ctl_log =
      modify (record { read = true; write = true; close = false; error = false })
      ∷ add (record { read = true; write = false; close = false; error = false })
      ∷ [];
}

built_lem : calls create script ≡ some built
unfolding calls apply create set_read_callback enable set_write_event
built_lem = refl

-- Data and a hang-up together: the read comes first on the next turn, and no close.
ready_order : (run (λ k g. g) ready).0 ≡ 2 ∷ 1 ∷ 4 ∷ []
unfolding run
ready_order = refl

calls-InSync_example :
    (h : IoHandler) × (calls create script ≡ some h)
    × (never_quits script ≡ true
        → (replay h.ctl_log ≡ some (if is_enabled h.status then some h.events else none))
          × LeftBehind h)
calls-InSync_example = calls-InSync script

-- Callbacks that disable their handler, as the loop has been asked to end.
abbrev closing : ℕ → IoHandler → IoHandler
closing k g = record g {
  status = disabled;
  read_callback = none;
  write_callback = none;
  close_callback = none;
  error_callback = none;
}

closing_lem :
    (g : IoHandler) → (quit : Bool) × (h : IoHandler) × (disable quit h ≡ some (closing 4 g))
unfolding disable clean_callbacks
closing_lem g = (true, g, refl)

only_error : (run closing ready).0 ≡ [] ++ 4 ∷ []
unfolding run
only_error = refl

abbrev nothing_newer : List ℕ
nothing_newer = []

run_stops_example : (nothing_newer ≡ []) × (is_enabled (run closing ready).1.status ≡ false)
run_stops_example = run_stops closing 4 closing_lem ready nothing_newer [] only_error
