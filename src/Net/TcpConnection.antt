-- ===== src/Net/TcpConnection.antt =====
-- src/net/TCPConnection.cpp, as it runs in the loop's thread: `runInLoop` calls at once, and
-- `queueInLoop` appends to `queued`. The results of `read`, `write` and `readv` are arguments; the
-- bytes that the kernel took are `wire`. An abort (a failed check or assertion) is `none`.
pub mod Kept
pub mod Stream
pub mod Drain
pub mod Reading
mod Examples
use hohnor.Prelude.{
  ℕ, ◌+◌, ◌-◌, ◌*◌, ◌≡◌, Bool, true, false, not, ◌&&◌, ◌||◌, List, [], ◌∷◌, ◌++◌, Option, none,
  some, if◌then◌else◌, ◌==◌, ltb, leb, length, take, drop, add64, ◌>>=◌,
}
use hohnor.Common.Buffer
use hohnor.Common.Buffer.{
  Buffer, ReadResult, failed, received, peeked, readable_bytes, initial_size, search, slice,
}
use hohnor.Core.IoHandler
use hohnor.Core.IoHandler.{IoHandler, is_some}

-- `readStopCondition_`: `readUntil`, `readBytes`, or a caller's own.
pub data StopCondition : Type 0 where
  until_delimiter : List ℕ → StopCondition
  at_least : ℕ → StopCondition
  custom : (Buffer → Bool) → StopCondition

-- The user's callbacks, as they are called; the functors that wait in the loop.
pub data Notice : Type 0 where
  high_water read_complete write_completed closed error : ℕ → Notice

pub data Functor : Type 0 where
  write_complete : ℕ → Functor
  disable_handler : Functor

pub record TcpConnection : Type 0 where
  pub handler : Option IoHandler
  pub writing : Bool
  pub read_buffer : Buffer
  pub write_buffer : Buffer
  pub high_water_mark : ℕ
  pub high_water_callback : Option ℕ
  pub read_complete_callback : Option ℕ
  pub write_complete_callback : Option ℕ
  pub stop_condition : Option StopCondition
  pub close_callback : Option ℕ
  pub error_callback : Option ℕ
  pub queued : List Functor
  pub notices : List Notice
  pub wire : List ℕ

abbrev pub is_closed : TcpConnection → Bool
is_closed c = not (is_some c.handler)

abbrev pub with_handler : TcpConnection → Option IoHandler → Option TcpConnection
with_handler c none = none
with_handler c (some h) = some (record c { handler = some h })

-- A call through a null handler is a crash.
abbrev pub on_handler :
    (IoHandler → Option IoHandler) → TcpConnection → Option IoHandler → Option TcpConnection
on_handler f c none = none
on_handler f c (some h) = with_handler c (f h)

-- `setWriteEvent` of the connection.
unfoldable pub set_write_event : Bool → TcpConnection → Option TcpConnection
set_write_event on c =
    if is_closed c then some c else on_handler (IoHandler.set_write_event on) c c.handler

-- The constructor; its four callbacks are numbered 0 to 3.
unfoldable pub create : Option IoHandler → Option TcpConnection
create none = none
create (some h) = do
  a ← IoHandler.set_read_callback (some 0) h
  b ← IoHandler.set_write_callback (some 1) a
  d ← IoHandler.set_close_callback (some 2) b
  e ← IoHandler.set_error_callback (some 3) d
  set_write_event false (record {
    handler = some e;
    writing = false;
    read_buffer = Buffer.create initial_size;
    write_buffer = Buffer.create initial_size;
    high_water_mark = 64 * 1024 * 1024;
    high_water_callback = none;
    read_complete_callback = none;
    write_complete_callback = none;
    stop_condition = none;
    close_callback = none;
    error_callback = none;
    queued = [];
    notices = [];
    wire = [];
  })

-- `enable()`, where the handler is not enabled yet.
unfoldable pub ensure_enabled : TcpConnection → Option TcpConnection
ensure_enabled c = elim c.handler [
  | none ↦ none
  | some h ↦ if IoHandler.is_enabled h.status then some c else with_handler c (IoHandler.enable h)
]

unfoldable pub set_high_water_mark_callback : ℕ → ℕ → TcpConnection → TcpConnection
set_high_water_mark_callback mark cb c = record c {
  high_water_mark = mark;
  high_water_callback = some cb;
}

unfoldable pub set_read_complete_callback : Option ℕ → TcpConnection → TcpConnection
set_read_complete_callback cb c = record c { read_complete_callback = cb }

unfoldable pub set_write_complete_callback : Option ℕ → TcpConnection → TcpConnection
set_write_complete_callback cb c = record c { write_complete_callback = cb }

unfoldable pub set_close_callback : Option ℕ → TcpConnection → TcpConnection
set_close_callback cb c = record c { close_callback = cb }

unfoldable pub set_error_callback : Option ℕ → TcpConnection → TcpConnection
set_error_callback cb c = record c { error_callback = cb }

unfoldable pub read_raw : TcpConnection → Option TcpConnection
read_raw c = ensure_enabled (record c { stop_condition = none })

unfoldable pub read_until_condition : StopCondition → TcpConnection → Option TcpConnection
read_until_condition s c = ensure_enabled (record c { stop_condition = some s })

unfoldable pub read_until : List ℕ → TcpConnection → Option TcpConnection
read_until delimiter c = read_until_condition (until_delimiter delimiter) c

unfoldable pub read_bytes : ℕ → TcpConnection → Option TcpConnection
read_bytes n c = read_until_condition (at_least n) c

-- Whether the condition is met. `readUntil` searches the bytes that the last write to the buffer is
-- said to have brought, up to the writer; its `found` is the end where there is none.
unfoldable pub stops : StopCondition → Buffer → Bool
stops (until_delimiter d) b =
    elim (search (slice b.bytes (b.writer_index - b.last_write_bytes) b.last_write_bytes) d) [
      | none ↦ false
      | some i ↦ not (i == b.last_write_bytes)
    ]
stops (at_least n) b = leb n (readable_bytes b)
stops (custom p) b = p b

abbrev pub notify : (ℕ → Notice) → Option ℕ → TcpConnection → TcpConnection
notify f none c = c
notify f (some k) c = record c { notices = f k ∷ c.notices }

unfoldable pub handle_close : TcpConnection → TcpConnection
handle_close c =
    notify closed c.close_callback
      (if is_closed c then c else record c { queued = c.queued ++ disable_handler ∷ [] })

unfoldable pub handle_error : TcpConnection → TcpConnection
handle_error c = notify error c.error_callback c

abbrev pub should_notify : Option StopCondition → Buffer → Bool
should_notify none b = true
should_notify (some s) b = stops s b

abbrev pub shrink_limit : ℕ
shrink_limit = 1024 * 1024

-- A large buffer with nothing in it is replaced.
unfoldable pub trim : Buffer → Option Buffer
trim b = if readable_bytes b == 0 && ltb shrink_limit b.capacity then Buffer.shrink b 0 else some b

-- `handleRead`. `on_read` is what the user's callback does to the connection.
unfoldable pub handle_read :
    (TcpConnection → TcpConnection) → ReadResult → TcpConnection → Option TcpConnection
handle_read on_read (failed errno) c = some (handle_error c)
handle_read on_read (received []) c = some (handle_close c)
handle_read on_read (received (x ∷ new)) c = do
  b ← Buffer.read_fd c.read_buffer (received (x ∷ new))
  let read = record c { read_buffer = b }
  let told =
      if should_notify c.stop_condition b && is_some c.read_complete_callback
      then on_read (notify read_complete c.read_complete_callback read)
      else read
  trimmed ← trim told.read_buffer
  some (record told { read_buffer = trimmed })

-- What `write(2)` came to.
pub data Errno : Type 0 where
  would_block broken_pipe conn_reset other : Errno

pub data WriteResult : Type 0 where
  wrote : ℕ → WriteResult
  write_failed : Errno → WriteResult

abbrev pub queue_write_complete : TcpConnection → TcpConnection
queue_write_complete c = elim c.write_complete_callback [
  | none ↦ c
  | some k ↦ record c { queued = c.queued ++ write_complete k ∷ [] }
]

-- `handleWrite` where the kernel took `n` bytes: `emptied` is the branch with nothing left.
unfoldable pub emptied : TcpConnection → Option TcpConnection
emptied c = do
  d ← set_write_event false c
  let e = queue_write_complete (record d { writing = false })
  b ←
      if ltb shrink_limit e.write_buffer.capacity
      then Buffer.shrink e.write_buffer 0
      else some e.write_buffer
  some (record e { write_buffer = b })

unfoldable pub wrote_some : ℕ → TcpConnection → Option TcpConnection
wrote_some n c = do
  b ← Buffer.retrieve c.write_buffer n
  let d = record c { write_buffer = b; wire = c.wire ++ take n (peeked c.write_buffer) }
  if readable_bytes b == 0 then emptied d else some d

unfoldable pub handle_write : WriteResult → TcpConnection → Option TcpConnection
handle_write (wrote n) c =
    if c.writing then (if ltb 0 n then wrote_some n c else some (handle_error c)) else some c
handle_write (write_failed e) c = if c.writing then some (handle_error c) else some c

-- The end of `writeInLoop`: what the kernel did not take of the message, behind its first `n` bytes,
-- goes into the buffer. write(2) never takes more than the message. The high-water callback is a notice here, so
-- that one that calls the connection again is outside the model.
abbrev pub tell_high_water : ℕ → TcpConnection → TcpConnection
tell_high_water remaining c =
    if leb c.high_water_mark (add64 (readable_bytes c.write_buffer) remaining)
      && ltb (readable_bytes c.write_buffer) c.high_water_mark
    then notify high_water c.high_water_callback c
    else c

unfoldable pub start_writing : TcpConnection → Option TcpConnection
start_writing c =
    if c.writing
    then some c
    else (do d ← set_write_event true c; some (record d { writing = true }))

unfoldable pub keep_rest : List ℕ → ℕ → TcpConnection → Option TcpConnection
keep_rest message n c =
    if ltb n (length message)
    then (do
      b ← Buffer.append c.write_buffer (drop n message)
      start_writing (record (tell_high_water (length message - n) c) { write_buffer = b }))
    else some c

abbrev pub is_fault : Errno → Bool
is_fault broken_pipe = true
is_fault conn_reset = true
is_fault would_block = false
is_fault other = false

-- `writeInLoop`; the direct `write(2)` is made only with nothing buffered. A fault fails a check.
unfoldable pub write_in_loop : WriteResult → List ℕ → TcpConnection → Option TcpConnection
write_in_loop r message c =
    if not c.writing && readable_bytes c.write_buffer == 0
    then (elim r [
      | wrote n ↦ keep_rest message n (
          let sent = record c { wire = c.wire ++ take n message } in
          if n == length message then queue_write_complete sent else sent)
      | write_failed e ↦ if is_fault e then none else keep_rest message 0 c
    ])
    else keep_rest message 0 c

-- `write(message)`, all overloads that carry data.
unfoldable pub write : WriteResult → List ℕ → TcpConnection → Option TcpConnection
write r message c =
    if is_closed c then ensure_enabled c else (write_in_loop r message c >>= ensure_enabled)

-- `write(Buffer*)`.
unfoldable pub write_from : WriteResult → Buffer → TcpConnection → Option (TcpConnection × Buffer)
write_from r b c =
    if ltb 0 (readable_bytes b)
    then (do slice ← Buffer.readable_slice b; d ← write r slice c; some (d, Buffer.retrieve_all b))
    else some (c, b)

-- `write()`: asks for the write event alone.
unfoldable pub write_nothing : TcpConnection → Option TcpConnection
write_nothing c =
    if is_closed c
    then ensure_enabled c
    else (on_handler (IoHandler.set_write_event true) c c.handler >>= ensure_enabled)

unfoldable pub force_close : TcpConnection → Option TcpConnection
force_close c = if is_closed c then some c else on_handler (IoHandler.disable false) c c.handler

-- A functor that the loop took from its queue.
unfoldable pub run_functor : Functor → TcpConnection → Option TcpConnection
run_functor (write_complete k) c = some (record c { notices = write_completed k ∷ c.notices })
run_functor disable_handler c = on_handler (IoHandler.disable false) c c.handler
