-- ===== src/Net/TcpConnector.antt =====
-- src/net/TCPConnector.cpp, as it runs in the loop's thread, of a loop that has not ended. The results
-- of `connect(2)` and of `getSockError` are arguments; a failed check and a call through a null
-- handler are `none`. The counter of retries is an integer here that does not overflow.
pub mod Attempts
pub mod Safety
pub mod Backoff
mod Examples
use hohnor.Prelude.{
  ℕ, ◌+◌, ◌-◌, ◌*◌, min, Bool, true, false, not, ◌&&◌, ◌||◌, List, [], ◌∷◌, Option, none, some,
  if◌then◌else◌, ltb, ◌>>=◌,
}
use hohnor.Prelude.Int.{ℤ, pos, negsuc, ltb_ℤ}

pub data ConnectorState : Type 0 where
  disconnected connecting connected : ConnectorState

abbrev pub is_disconnected : ConnectorState → Bool
is_disconnected disconnected = true
is_disconnected connecting = false
is_disconnected connected = false

abbrev pub is_connecting : ConnectorState → Bool
is_connecting connecting = true
is_connecting disconnected = false
is_connecting connected = false

abbrev pub is_connected : ConnectorState → Bool
is_connected connected = true
is_connected disconnected = false
is_connected connecting = false

-- A callback that ran, by its number.
pub data Notice : Type 0 where
  new_connection retrying failed : ℕ → Notice

-- `handler` is none where `socketHandler_` is null, and tells else whether it is enabled with the
-- callbacks of `connecting()`. `timers` counts the retries that the loop's timers hold, `delays` are
-- those that were asked for and `notices` the callbacks that ran, the latest first.
pub record TcpConnector : Type 0 where
  pub state : ConnectorState
  pub handler : Option Bool
  pub constant_delay : Bool
  pub retry_delay_ms : ℕ
  pub max_retries : ℤ
  pub current_retries : ℕ
  pub new_connection_callback : Option ℕ
  pub retry_callback : Option ℕ
  pub failed_callback : Option ℕ
  pub timers : ℕ
  pub attempts : ℕ
  pub delays : List ℕ
  pub notices : List Notice

abbrev pub default_retry_delay_ms : ℕ
default_retry_delay_ms = 500

abbrev pub max_retry_delay_ms : ℕ
max_retry_delay_ms = 30000

unfoldable pub create : TcpConnector
create = record {
  state = disconnected;
  handler = some false;
  constant_delay = false;
  retry_delay_ms = default_retry_delay_ms;
  max_retries = pos 0;
  current_retries = 0;
  new_connection_callback = none;
  retry_callback = none;
  failed_callback = none;
  timers = 0;
  attempts = 0;
  delays = [];
  notices = [];
}

unfoldable pub set_new_connection_callback : Option ℕ → TcpConnector → TcpConnector
set_new_connection_callback cb c = record c { new_connection_callback = cb }

unfoldable pub set_retry_connection_callback : Option ℕ → TcpConnector → TcpConnector
set_retry_connection_callback cb c = record c { retry_callback = cb }

unfoldable pub set_failed_connection_callback : Option ℕ → TcpConnector → TcpConnector
set_failed_connection_callback cb c = record c { failed_callback = cb }

unfoldable pub set_retry_constant_delay : ℕ → TcpConnector → TcpConnector
set_retry_constant_delay ms c = record c { retry_delay_ms = ms; constant_delay = true }

unfoldable pub set_retries : ℤ → TcpConnector → TcpConnector
set_retries n c = record c { max_retries = n }

abbrev pub told : (ℕ → Notice) → Option ℕ → List Notice → List Notice
told f none ns = ns
told f (some k) ns = f k ∷ ns

-- `stop`, with the new socket for later: socket(2) is taken to succeed, since its failure ends the process.
abbrev pub fresh : TcpConnector → TcpConnector
fresh c = record c { state = disconnected; handler = some false }

unfoldable pub stop : TcpConnector → Option TcpConnector
stop c = if is_disconnected c.state then some c else (elim c.handler [
  | none ↦ if is_connected c.state then some (fresh c) else none
  | some on ↦ some (fresh c)
])

-- `retry`, after its call of `stop`.
abbrev pub may_retry : TcpConnector → Bool
may_retry c = ltb_ℤ c.max_retries (pos 0) || ltb_ℤ (pos c.current_retries) c.max_retries

abbrev pub next_delay : TcpConnector → ℕ
next_delay c =
    if c.constant_delay then c.retry_delay_ms else min (c.retry_delay_ms * 2) max_retry_delay_ms

unfoldable pub schedule_retry : TcpConnector → TcpConnector
schedule_retry c = record c {
  current_retries = c.current_retries + 1;
  retry_delay_ms = next_delay c;
  timers = c.timers + 1;
  delays = next_delay c ∷ c.delays;
  notices = told retrying c.retry_callback c.notices;
}

unfoldable pub give_up : TcpConnector → TcpConnector
give_up c = record c { notices = told failed c.failed_callback c.notices }

unfoldable pub retry : TcpConnector → Option TcpConnector
retry c = do s ← stop c; some (if may_retry s then schedule_retry s else give_up s)

unfoldable pub handle_connect_error : TcpConnector → Option TcpConnector
handle_connect_error c = if is_connected c.state then some c else retry c

-- `handleConnectWrite`, where `getSockError` reports an error or not.
unfoldable pub handle_connect_write : Bool → TcpConnector → Option TcpConnector
handle_connect_write err c =
    if not (is_connecting c.state)
    then some c
    else (if err then retry c else (elim c.handler [
      | none ↦ none
      | some on ↦ some (record c {
        state = connected;
        handler = none;
        notices = told new_connection c.new_connection_callback c.notices;
      })
    ]))

unfoldable pub begin_connecting : TcpConnector → Option TcpConnector
begin_connecting c =
    if is_connecting c.state
    then (elim c.handler [ none ↦ none | some on ↦ some (record c { handler = some true }) ])
    else none

-- The error number after `connect(2)`.
pub data ConnectErrno : Type 0 where
  no_error is_conn in_progress interrupted : ConnectErrno
  again addr_in_use addr_not_avail conn_refused net_unreach : ConnectErrno
  other : ConnectErrno

unfoldable pub by_errno : ConnectErrno → TcpConnector → Option TcpConnector
by_errno no_error c = begin_connecting c
by_errno is_conn c = begin_connecting c
by_errno in_progress c = begin_connecting c
by_errno interrupted c = begin_connecting c
by_errno again c = retry c
by_errno addr_in_use c = retry c
by_errno addr_not_avail c = retry c
by_errno conn_refused c = retry c
by_errno net_unreach c = retry c
by_errno other c = handle_connect_error c

unfoldable pub connect : ConnectErrno → TcpConnector → Option TcpConnector
connect e c = elim c.handler [
  | none ↦ none
  | some on ↦
      if is_disconnected c.state
      then by_errno e (record c { state = connecting; attempts = c.attempts + 1 })
      else none
]

unfoldable pub start : ConnectErrno → TcpConnector → Option TcpConnector
start e c = do
  s ← if is_disconnected c.state then some c else stop c
  connect e (record s {
    current_retries = 0;
    retry_delay_ms = (if s.constant_delay then s.retry_delay_ms else default_retry_delay_ms);
  })

-- The functor of a retry's timer.
unfoldable pub timer_fired : ConnectErrno → TcpConnector → Option TcpConnector
timer_fired e c = if is_disconnected c.state then connect e c else some c

-- What the user, the timers and the poller may do. The poller calls back an enabled handler alone.
pub data Event : Type 0 where
  user_start timer : ConnectErrno → Event
  user_stop errored : Event
  writable : Bool → Event

abbrev pub is_watching : TcpConnector → Bool
is_watching c = elim c.handler [ none ↦ false | some on ↦ on ]

unfoldable pub step : Event → TcpConnector → Option TcpConnector
step (user_start e) c = start e c
step (timer e) c =
    if ltb 0 c.timers then timer_fired e (record c { timers = c.timers - 1 }) else some c
step user_stop c = stop c
step errored c = if is_watching c then handle_connect_error c else some c
step (writable err) c = if is_watching c then handle_connect_write err c else some c

unfoldable pub run : List Event → TcpConnector → Option TcpConnector
run [] c = some c
run (e ∷ es) c = elim (step e c) [ none ↦ none | some d ↦ run es d ]
