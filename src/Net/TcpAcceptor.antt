-- ===== src/Net/TcpAcceptor.antt =====
-- src/net/TCPAcceptor.cpp with `listen` and `accept` of src/net/SocketWrap.cpp, in the loop's thread, while the
-- acceptor lives. The results of `listen` and `accept4` are arguments; an abort is `none`.
pub mod Accepting
mod Examples
use hohnor.Prelude.{
  ℕ, Bool, true, false, List, [], ◌∷◌, ◌++◌, Option, none, some, if◌then◌else◌, ◌>>=◌,
}
use hohnor.Core.IoHandler
use hohnor.Core.IoHandler.{IoHandler}
use hohnor.Net.TcpConnection
use hohnor.Net.TcpConnection.{TcpConnection}

-- What `accept4` gives: `unexpected` stands for every other error.
pub data AcceptError : Type 0 where
  again aborted interrupted protocol not_permitted too_many_files unexpected : AcceptError

pub data AcceptResult : Type 0 where
  accepted : ℕ → AcceptResult
  refused : AcceptError → AcceptResult

-- A call of the accept callback, with the descriptor and the connection over it.
pub record Delivery : Type 0 where
  pub callback : ℕ
  pub fd : ℕ
  pub connection : TcpConnection

-- `delivered` are the calls of the accept callback, the oldest first.
pub record TcpAcceptor : Type 0 where
  pub handler : IoHandler
  pub accept_callback : Option ℕ
  pub delivered : List Delivery

unfoldable pub create : TcpAcceptor
create = record { handler = IoHandler.create; accept_callback = none; delivered = [] }

-- The read callback is numbered 0.
unfoldable pub set_accept_callback : Option ℕ → TcpAcceptor → Option TcpAcceptor
set_accept_callback cb a = do
  h ← IoHandler.set_read_callback (some 0) a.handler
  some (record a { handler = h; accept_callback = cb })

unfoldable pub listen : Bool → TcpAcceptor → Option TcpAcceptor
listen listens a =
    if listens then (do h ← IoHandler.enable a.handler; some (record a { handler = h })) else none

unfoldable pub is_expected : AcceptError → Bool
is_expected again = true
is_expected aborted = true
is_expected interrupted = true
is_expected protocol = true
is_expected not_permitted = true
is_expected too_many_files = true
is_expected unexpected = false

-- `SocketFuncs::accept`: none inside for a negative descriptor.
unfoldable pub socket_accept : AcceptResult → Option (Option ℕ)
socket_accept (accepted fd) = some (some fd)
socket_accept (refused e) = if is_expected e then some none else none

-- `TCPAcceptor::accept`.
unfoldable pub accept : AcceptResult → Option (Option (ℕ × IoHandler))
accept r = do
  fd ← socket_accept r
  elim fd [ none ↦ some none | some n ↦ some (some (n, IoHandler.create)) ]

-- The connection over what `accept` gave.
unfoldable pub connection_over : Option (ℕ × IoHandler) → Option (ℕ × TcpConnection)
connection_over none = do c ← TcpConnection.create none; some (0, c)
connection_over (some (fd, h)) = do c ← TcpConnection.create (some h); some (fd, c)

-- A call of an empty function throws.
unfoldable pub call_back : Option ℕ → ℕ × TcpConnection → TcpAcceptor → Option TcpAcceptor
call_back none c a = none
call_back (some cb) (fd, c) a =
    some (record a {
      delivered = a.delivered ++ record { callback = cb; fd = fd; connection = c } ∷ [];
    })

-- The read callback that `setAcceptCallback` installs.
unfoldable pub handle_accept : AcceptResult → TcpAcceptor → Option TcpAcceptor
handle_accept r a = do h ← accept r; c ← connection_over h; call_back a.accept_callback c a

-- The loop finds the socket ready, again and again.
unfoldable pub handle_all : List AcceptResult → TcpAcceptor → Option TcpAcceptor
handle_all [] a = some a
handle_all (r ∷ rs) a = do a' ← handle_accept r a; handle_all rs a'

-- A server: a callback is set, it listens, and connections come.
unfoldable pub serve : Bool → Option ℕ → List AcceptResult → Option TcpAcceptor
serve listens cb rs = do a ← set_accept_callback cb create; b ← listen listens a; handle_all rs b
