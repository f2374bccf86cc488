-- ===== src/Net/TcpConnector/Examples.antt =====
-- Tests of src/net/TCPConnector.cpp, and instances of its theorems.
use hohnor.Prelude.{◌≡◌, refl, inr, [], ◌∷◌, some, none, false, arith}
use hohnor.Prelude.Int.{pos}
use hohnor.Net.TcpConnector.{
  TcpConnector, disconnected, connected, user_start, user_stop, timer, errored, writable,
  in_progress, conn_refused, other, new_connection, run, step, start, connect, by_errno,
  begin_connecting, handle_connect_write,
}
use hohnor.Net.TcpConnector.Attempts.{IsValid, Succeeds}
use hohnor.Net.TcpConnector.Safety.{run-IsValid}
use hohnor.Net.TcpConnector.Backoff.{GaveUp, refusals, start-gives_up}

-- A connector that retries twice and has all its callbacks.
abbrev twice : TcpConnector
twice = record {
  state = disconnected;
  handler = some false;
  constant_delay = false;
  retry_delay_ms = 500;
  max_retries = pos 2;
  current_retries = 0;
  new_connection_callback = some 7;
  retry_callback = some 8;
  failed_callback = some 9;
  timers = 0;
  attempts = 0;
  delays = [];
  notices = [];
}

twice-IsValid : IsValid twice
twice-IsValid = record { owns = refl; paced = inr (omega arith) }

connects :
    run (user_start in_progress ∷ writable false ∷ []) twice
    ≡ some (record twice {
      state = connected;
      handler = none;
      attempts = 1;
      notices = new_connection 7 ∷ [];
    })
unfolding run step start connect by_errno begin_connecting handle_connect_write
connects = refl

run-IsValid_example : Succeeds (
    run
      (user_start in_progress
        ∷ errored
        ∷ user_start other
        ∷ timer conn_refused
        ∷ timer in_progress
        ∷ writable false
        ∷ user_start conn_refused
        ∷ user_stop
        ∷ [])
      twice)
run-IsValid_example =
    run-IsValid
      (user_start in_progress
        ∷ errored
        ∷ user_start other
        ∷ timer conn_refused
        ∷ timer in_progress
        ∷ writable false
        ∷ user_start conn_refused
        ∷ user_stop
        ∷ [])
      twice twice-IsValid

start-gives_up_example :
    (d : TcpConnector) × (run (user_start conn_refused ∷ refusals 2) twice ≡ some d)
    × GaveUp 8 9 0 3 2 twice d
start-gives_up_example = start-gives_up 8 9 2 twice refl refl refl refl refl refl refl
