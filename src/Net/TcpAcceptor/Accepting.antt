-- ===== src/Net/TcpAcceptor/Accepting.antt =====
-- src/net/TCPAcceptor.cpp: which connections reach the accept callback, and when the process ends instead.
use hohnor.Prelude.{
  ℕ, ◌≡◌, refl, sym, ap, ◌∙◌, Bool, true, false, List, [], ◌∷◌, ◌++◌, append-nil, append_assoc,
  Option, none, some, if◌then◌else◌,
}
use hohnor.Core.IoHandler
use hohnor.Core.IoHandler.{IoHandler, is_enabled}
use hohnor.Core.IoHandler.Outcome.{Listens, enable_lem, set_read_callback_lem}
use hohnor.Common.Buffer.{Buffer, initial_size}
use hohnor.Common.Buffer
use hohnor.Net.TcpConnection
use hohnor.Net.TcpConnection.{TcpConnection}
use hohnor.Net.TcpAcceptor.{
  AcceptError, again, aborted, interrupted, protocol, not_permitted, too_many_files, unexpected,
  AcceptResult, accepted, refused, Delivery, TcpAcceptor, create, set_accept_callback, listen,
  is_expected, socket_accept, accept, connection_over, call_back, handle_accept, handle_all, serve,
}

-- A connection as its constructor leaves it: nothing is buffered, and its handler is not enabled.
pub record IsFresh (c : TcpConnection) : Type 0 where
  pub made : TcpConnection.create (some IoHandler.create) ≡ some c
  pub off : (h : IoHandler) × (c.handler ≡ some h) × (is_enabled h.status ≡ false)
  pub read_buffer : c.read_buffer ≡ Buffer.create initial_size
  pub write_buffer : c.write_buffer ≡ Buffer.create initial_size

created-IsFresh : (c : TcpConnection) × IsFresh c
unfolding TcpConnection.create IoHandler.create IoHandler.set_read_callback
    IoHandler.set_write_callback IoHandler.set_close_callback IoHandler.set_error_callback
    TcpConnection.set_write_event IoHandler.set_write_event
created-IsFresh =
    (_, record { made = refl; off = (_, refl, refl); read_buffer = refl; write_buffer = refl })

abbrev pub accepts : AcceptResult → Bool
accepts (accepted fd) = true
accepts (refused e) = false

abbrev pub accepts_all : List AcceptResult → Bool
accepts_all [] = true
accepts_all (r ∷ rs) = if accepts r then accepts_all rs else false

abbrev pub deliveries : ℕ → TcpConnection → List AcceptResult → List Delivery
deliveries cb c [] = []
deliveries cb c (accepted fd ∷ rs) =
    record { callback = cb; fd = fd; connection = c } ∷ deliveries cb c rs
deliveries cb c (refused e ∷ rs) = deliveries cb c rs

-- Whatever the error, nobody is there to take a connection over no descriptor.
refused-ends : (e : AcceptError) (a : TcpAcceptor) → handle_accept (refused e) a ≡ none
unfolding handle_accept accept socket_accept is_expected connection_over TcpConnection.create
refused-ends again a = refl
refused-ends aborted a = refl
refused-ends interrupted a = refl
refused-ends protocol a = refl
refused-ends not_permitted a = refl
refused-ends too_many_files a = refl
refused-ends unexpected a = refl

module _ (cb : ℕ) (c : TcpConnection)
    (f : TcpConnection.create (some IoHandler.create) ≡ some c) where
  accepted-delivers :
      (fd : ℕ) (a : TcpAcceptor)
      → a.accept_callback ≡ some cb
      → handle_accept (accepted fd) a
        ≡ some (record a {
          delivered = a.delivered ++ record { callback = cb; fd = fd; connection = c } ∷ [];
        })
  unfolding handle_accept accept socket_accept connection_over call_back
  accepted-delivers fd a h = rw (f, h) refl

  handle_all-delivers :
      (rs : List AcceptResult) (a : TcpAcceptor)
      → a.accept_callback ≡ some cb
      → handle_all rs a ≡ (
          if accepts_all rs
          then some (record a { delivered = a.delivered ++ deliveries cb c rs })
          else none)
  unfolding handle_all
  handle_all-delivers [] a h =
      ap (λ d. some (record a { delivered = d })) (sym (append-nil a.delivered))
  handle_all-delivers (accepted fd ∷ rs) a h = rw (accepted-delivers fd a h) (
      handle_all-delivers rs
        (record a {
          delivered = a.delivered ++ record { callback = cb; fd = fd; connection = c } ∷ [];
        })
        h
      ∙ ap (λ d. if accepts_all rs then some (record a { delivered = d }) else none)
          (append_assoc a.delivered (record { callback = cb; fd = fd; connection = c } ∷ [])
            (deliveries cb c rs)))
  handle_all-delivers (refused e ∷ rs) a h = rw (refused-ends e a) refl

-- What a server comes to: it runs on if no `accept4` fails.
abbrev pub Serves : ℕ → List AcceptResult → Option TcpAcceptor → Type 0
Serves cb rs m =
    (a : TcpAcceptor) × (c : TcpConnection) × (m ≡ (if accepts_all rs then some a else none))
    × IsFresh c
    × (a.delivered ≡ deliveries cb c rs)
    × Listens (some a.handler) (some 0)

serve-set :
    (cb : ℕ)
    → (a : TcpAcceptor) × (set_accept_callback (some cb) create ≡ some a)
      × (a.accept_callback ≡ some cb)
      × (a.delivered ≡ [])
      × (a.handler.events.read ≡ true)
      × (a.handler.read_callback ≡ some 0)
unfolding set_accept_callback create
serve-set cb =
    let (h, e, _, r, k) = set_read_callback_lem IoHandler.create (some 0) in
    (record { handler = h; accept_callback = some cb; delivered = [] }, rw e refl, refl, refl, r, k)

listen-set :
    (a : TcpAcceptor)
    → a.handler.events.read ≡ true
    → a.handler.read_callback ≡ some 0
    → (h : IoHandler) × (listen true a ≡ some (record a { handler = h }))
      × Listens (some h) (some 0)
unfolding listen
listen-set a r k = let (h, e, l) = enable_lem a.handler {cb = some 0} r k in (h, rw e refl, l)

-- A server with a callback that listens: if every `accept4` gives a descriptor, the callback is called once for
-- each, in order, with a connection that is fresh, and the server still listens; if one fails, with whatever
-- error, the process ends there, as the connection over a null handler reads through it.
pub serve-accepts : (cb : ℕ) (rs : List AcceptResult) → Serves cb rs (serve true (some cb) rs)
unfolding serve
serve-accepts cb rs =
    let (a, e, k, d, r, n) = serve-set cb in
    let (h, g, l) = listen-set a r n in
    let (c, f) = created-IsFresh in
    (
      record a { handler = h; delivered = a.delivered ++ deliveries cb c rs },
      c,
      rw (e, g) (handle_all-delivers cb c f.made rs (record a { handler = h }) k),
      f,
      ap (λ l. l ++ deliveries cb c rs) d,
      l,
    )
