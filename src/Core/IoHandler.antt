-- ===== src/Core/IoHandler.antt =====
-- src/core/IOHandler.cpp with `EventLoop::updateIOHandler`, as it runs in the loop's thread, where
-- `runInLoop` calls its functor at once. `epoll_ctl` is the log of the commands that it is given.
pub mod Registration
pub mod Dispatch
pub mod Outcome
mod Examples
use hohnor.Prelude.{
  ℕ, ◌≡◌, Bool, true, false, not, ◌&&◌, ◌||◌, List, [], ◌∷◌, Option, none, some, if◌then◌else◌,
  ◌>>=◌,
}

-- `events_`: the bits EPOLLIN, EPOLLOUT, EPOLLRDHUP and EPOLLERR.
pub record Events : Type 0 where
  pub read : Bool
  pub write : Bool
  pub close : Bool
  pub error : Bool

-- `revents_`, as `run` reads it.
pub record Revents : Type 0 where
  pub in_ : Bool
  pub pri : Bool
  pub out : Bool
  pub hup : Bool
  pub rdhup : Bool
  pub err : Bool

pub data Status : Type 0 where
  created enabled disabled : Status

pub data Ctl : Type 0 where
  add modify : Events → Ctl
  remove : Ctl

-- A callback is known by a number; none is `nullptr`. `ctl_log` has the latest command first.
pub record IoHandler : Type 0 where
  pub events : Events
  pub revents : Revents
  pub status : Status
  pub read_callback : Option ℕ
  pub write_callback : Option ℕ
  pub close_callback : Option ℕ
  pub error_callback : Option ℕ
  pub ctl_log : List Ctl

abbrev pub no_events : Events
no_events = record { read = false; write = false; close = false; error = false }

abbrev pub no_revents : Revents
no_revents = record {
  in_ = false;
  pri = false;
  out = false;
  hup = false;
  rdhup = false;
  err = false;
}

unfoldable pub create : IoHandler
create = record {
  events = no_events;
  revents = no_revents;
  status = created;
  read_callback = none;
  write_callback = none;
  close_callback = none;
  error_callback = none;
  ctl_log = [];
}

abbrev pub is_enabled : Status → Bool
is_enabled enabled = true
is_enabled created = false
is_enabled disabled = false

abbrev pub is_some {ℓ} : {A : Type ℓ} → Option A → Bool
is_some none = false
is_some (some a) = true

unfoldable pub clean_callbacks : IoHandler → IoHandler
clean_callbacks h = record h {
  read_callback = none;
  write_callback = none;
  close_callback = none;
  error_callback = none;
}

abbrev pub command : Ctl → IoHandler → IoHandler
command c h = record h { ctl_log = c ∷ h.ctl_log }

-- `EventLoop::updateIOHandler`; its check is the `none`.
unfoldable pub update_io_handler : IoHandler → Bool → Option IoHandler
update_io_handler h true = if is_enabled h.status then some (command (add h.events) h) else none
update_io_handler h false =
    if is_enabled h.status then some (command (modify h.events) h) else some (command remove h)

-- `addNew`: a switch from Created or Disabled to Enabled.
abbrev pub adds : Status → Status → Bool
adds created enabled = true
adds disabled enabled = true
adds _ _ = false

clean_if_disabled : IoHandler → Status → IoHandler
unfolding clean_callbacks
clean_if_disabled h disabled = clean_callbacks h
clean_if_disabled h created = h
clean_if_disabled h enabled = h

unfoldable pub update_in_loop : IoHandler → Status → Option IoHandler
unfolding update_io_handler clean_if_disabled
update_in_loop h next = do
  h' ← update_io_handler (record h { status = next }) (adds h.status next)
  some (clean_if_disabled h' next)

-- `update`, by the handler's status and the next one.
update_from : IoHandler → Status → Status → Option IoHandler
unfolding update_in_loop
update_from h disabled disabled = some h
update_from h created disabled = some (record h { status = disabled })
update_from h _ next = update_in_loop h next

unfoldable pub update : IoHandler → Status → Option IoHandler
unfolding update_from
update h next = update_from h h.status next

-- `disable`, by the loop's `quit_`.
unfoldable pub disable : Bool → IoHandler → Option IoHandler
unfolding update clean_callbacks
disable true h = some (record (clean_callbacks h) { status = disabled })
disable false h = update (clean_callbacks h) disabled

unfoldable pub enable : IoHandler → Option IoHandler
unfolding update
enable h = update h enabled

refresh : IoHandler → Option IoHandler
unfolding update_in_loop
refresh h = if is_enabled h.status then update_in_loop h enabled else some h

unfoldable pub set_read_event : Bool → IoHandler → Option IoHandler
unfolding refresh
set_read_event on h = refresh (record h { events = record h.events { read = on } })

unfoldable pub set_write_event : Bool → IoHandler → Option IoHandler
unfolding refresh
set_write_event on h = refresh (record h { events = record h.events { write = on } })

unfoldable pub set_close_event : Bool → IoHandler → Option IoHandler
unfolding refresh
set_close_event on h = refresh (record h { events = record h.events { close = on } })

unfoldable pub set_error_event : Bool → IoHandler → Option IoHandler
unfolding refresh
set_error_event on h = refresh (record h { events = record h.events { error = on } })

unfoldable pub set_read_callback : Option ℕ → IoHandler → Option IoHandler
unfolding set_read_event
set_read_callback cb h = set_read_event (is_some cb) (record h { read_callback = cb })

unfoldable pub set_write_callback : Option ℕ → IoHandler → Option IoHandler
unfolding set_write_event
set_write_callback cb h = set_write_event (is_some cb) (record h { write_callback = cb })

unfoldable pub set_close_callback : Option ℕ → IoHandler → Option IoHandler
unfolding set_close_event
set_close_callback cb h = set_close_event (is_some cb) (record h { close_callback = cb })

unfoldable pub set_error_callback : Option ℕ → IoHandler → Option IoHandler
unfolding set_error_event
set_error_callback cb h = set_error_event (is_some cb) (record h { error_callback = cb })

-- The destructor: an enabled handler is taken off epoll, unless the loop has ended or been asked to end.
unfoldable pub destroy : Bool → IoHandler → IoHandler
unfolding clean_callbacks
destroy ended h =
    if is_enabled h.status && not ended
    then record (command remove (clean_callbacks h)) { status = disabled }
    else record (clean_callbacks h) { status = disabled }

-- `run`: each callback is read when its turn comes, after the earlier ones have run. `exec` is what
-- the callbacks do to the handler; the numbers of those that ran come first to last.
module _ (exec : ℕ → IoHandler → IoHandler) where
  abbrev called : Bool → Option ℕ → List ℕ × IoHandler → List ℕ × IoHandler
  called due none (log, h) = (log, h)
  called true (some k) (log, h) = (k ∷ log, exec k h)
  called false (some k) (log, h) = (log, h)

  -- The four tests in the order of the source; the log is latest first.
  unfoldable pub run : IoHandler → List ℕ × IoHandler
  run h =
      let r = h.revents in
      let a = called (r.hup && not r.in_) h.close_callback ([], h) in
      let b = called a.1.revents.err a.1.error_callback a in
      let c =
        called (b.1.revents.in_ || (b.1.revents.pri || b.1.revents.rdhup)) b.1.read_callback b in
      let d = called c.1.revents.out c.1.write_callback c in
      if is_enabled h.status then d else ([], h)
