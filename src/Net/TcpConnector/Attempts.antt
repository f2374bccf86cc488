-- ===== src/Net/TcpConnector/Attempts.antt =====
-- src/net/TCPConnector.cpp: an attempt to connect and a retry succeed from a valid state.
use hohnor.Prelude.{
  ◌+◌, ◌≤◌, ◌≡◌, refl, ◌∙◌, Bool, true, false, Bool-cases, inl, inr, ◌⊎◌, Option, none, some, arith,
  if◌then◌else◌, if_elim,
}
use hohnor.Net.TcpConnector.{
  ConnectorState, disconnected, connecting, connected, is_disconnected, is_connected, TcpConnector,
  ConnectErrno, by_errno, no_error, is_conn, in_progress, interrupted, again, addr_in_use,
  addr_not_avail, conn_refused, net_unreach, other, stop, retry, schedule_retry, give_up,
  handle_connect_error, begin_connecting, connect, may_retry, next_delay, fresh, max_retry_delay_ms,
  default_retry_delay_ms,
}

-- The handler that a state has: none once the connection took it.
abbrev pub handler_in : ConnectorState → Option Bool
handler_in disconnected = some false
handler_in connecting = some true
handler_in connected = none

-- The handler is the state's, and a delay that grows is in its bounds.
pub record IsValid (c : TcpConnector) : Type 0 where
  pub owns : c.handler ≡ handler_in c.state
  pub paced :
      (c.constant_delay ≡ true)
      ⊎ ((default_retry_delay_ms ≤ c.retry_delay_ms) × (c.retry_delay_ms ≤ max_retry_delay_ms))

-- A result that is there and valid.
abbrev pub Succeeds : Option TcpConnector → Type 0
Succeeds m = (d : TcpConnector) × (m ≡ some d) × IsValid d

-- `stop` where the state is another one: it makes a new socket, if there is a handler to drop, or the
-- connection took it.
pub stop-fresh :
    (c : TcpConnector) (on : Bool)
    → (c.handler ≡ some on) ⊎ ((c.handler ≡ none) × (c.state ≡ connected))
    → is_disconnected c.state ≡ false
    → stop c ≡ some (fresh c)
unfolding stop
stop-fresh c on (inl h) d = ground arith
stop-fresh c on (inr (h, e)) d = ground arith

pub stop-disconnected : (c : TcpConnector) → is_disconnected c.state ≡ true → stop c ≡ some c
unfolding stop
stop-disconnected c d = ground arith

pub has_handler :
    (c : TcpConnector)
    → IsValid c
    → is_disconnected c.state ≡ false
    → (c.handler ≡ some true) ⊎ ((c.handler ≡ none) × (c.state ≡ connected))
has_handler c v d = by_state c.state refl v.owns d
  where
    by_state :
        (st : ConnectorState)
        → c.state ≡ st
        → c.handler ≡ handler_in st
        → is_disconnected st ≡ false
        → (c.handler ≡ some true) ⊎ ((c.handler ≡ none) × (c.state ≡ connected))
    by_state disconnected e h d = cc
    by_state connecting e h d = inl h
    by_state connected e h d = inr (h, e)

unfoldable pub retried : TcpConnector → TcpConnector
retried c = if may_retry c then schedule_retry c else give_up c

retried-IsValid : (c : TcpConnector) → IsValid c → IsValid (retried c)
unfolding retried schedule_retry give_up
retried-IsValid c v =
    if_elim IsValid (may_retry c) (λ t. record { owns = v.owns; paced = paced v.paced })
      (λ f. record { owns = v.owns; paced = v.paced })
  where
    paced :
        (c.constant_delay ≡ true)
          ⊎ ((default_retry_delay_ms ≤ c.retry_delay_ms) × (c.retry_delay_ms ≤ max_retry_delay_ms))
        → (c.constant_delay ≡ true)
          ⊎ ((default_retry_delay_ms ≤ next_delay c) × (next_delay c ≤ max_retry_delay_ms))
    paced (inl t) = inl t
    paced (inr (a, b)) = elim (Bool-cases c.constant_delay) [
      | inl t ↦ inl t
      | inr f ↦ inr (ground arith)
    ]

pub retry-retried : (c s : TcpConnector) → stop c ≡ some s → retry c ≡ some (retried s)
unfolding retry retried
retry-retried c s e = rw e

pub stop-Succeeds : (c : TcpConnector) → IsValid c → Succeeds (stop c)
stop-Succeeds c v = elim (Bool-cases (is_disconnected c.state)) [
  | inl t ↦ (c, stop-disconnected c t, v)
  | inr f ↦
      (fresh c, stop-fresh c true (has_handler c v f) f, record { owns = refl; paced = v.paced })
]

pub retry-Succeeds : (c : TcpConnector) → IsValid c → Succeeds (retry c)
retry-Succeeds c v =
    let (s, e, w) = stop-Succeeds c v in (retried s, retry-retried c s e, retried-IsValid s w)

pub handle_connect_error-Succeeds :
    (c : TcpConnector) → IsValid c → Succeeds (handle_connect_error c)
unfolding handle_connect_error
handle_connect_error-Succeeds c v =
    if_elim Succeeds (is_connected c.state) (λ t. (c, refl, v)) (λ f. retry-Succeeds c v)

-- `connect` before its result is looked at.
unfoldable pub asked : TcpConnector → TcpConnector
asked c = record c { state = connecting; attempts = c.attempts + 1 }

pub disconnected_lem :
    (c : TcpConnector) → IsValid c → is_disconnected c.state ≡ true → c.handler ≡ some false
disconnected_lem c v d = by_state c.state v.owns d
  where
    by_state :
        (st : ConnectorState)
        → c.handler ≡ handler_in st
        → is_disconnected st ≡ true
        → c.handler ≡ some false
    by_state disconnected h d = h
    by_state connecting h d = cc
    by_state connected h d = cc

pub stop-asked :
    (c : TcpConnector) → c.handler ≡ some false → stop (asked c) ≡ some (fresh (asked c))
unfolding asked
stop-asked c h = stop-fresh (asked c) false (inl h) refl

asked-retries :
    (c : TcpConnector) → IsValid c → is_disconnected c.state ≡ true → Succeeds (retry (asked c))
unfolding asked
asked-retries c v d = (
  retried (fresh (asked c)),
  retry-retried (asked c) (fresh (asked c)) (stop-asked c (disconnected_lem c v d)),
  retried-IsValid (fresh (asked c)) (record { owns = refl; paced = v.paced }),
)

asked-watches :
    (c : TcpConnector)
    → IsValid c
    → is_disconnected c.state ≡ true
    → Succeeds (begin_connecting (asked c))
unfolding begin_connecting asked
asked-watches c v d =
    let h = disconnected_lem c v d in
    (
      record (asked c) { handler = some true },
      ground arith,
      record { owns = refl; paced = v.paced },
    )

other-Succeeds :
    (c : TcpConnector)
    → IsValid c
    → is_disconnected c.state ≡ true
    → Succeeds (handle_connect_error (asked c))
other-Succeeds c v d = let (r, e, w) = asked-retries c v d in (r, fault ∙ e, w)
  where
    fault : handle_connect_error (asked c) ≡ retry (asked c)
    fault = unfold handle_connect_error asked in refl

by_errno-Succeeds :
    (e : ConnectErrno) (c : TcpConnector)
    → IsValid c
    → is_disconnected c.state ≡ true
    → Succeeds (by_errno e (asked c))
unfolding by_errno
by_errno-Succeeds no_error c v d = asked-watches c v d
by_errno-Succeeds is_conn c v d = asked-watches c v d
by_errno-Succeeds in_progress c v d = asked-watches c v d
by_errno-Succeeds interrupted c v d = asked-watches c v d
by_errno-Succeeds again c v d = asked-retries c v d
by_errno-Succeeds addr_in_use c v d = asked-retries c v d
by_errno-Succeeds addr_not_avail c v d = asked-retries c v d
by_errno-Succeeds conn_refused c v d = asked-retries c v d
by_errno-Succeeds net_unreach c v d = asked-retries c v d
by_errno-Succeeds other c v d = other-Succeeds c v d

pub connect-asked :
    (e : ConnectErrno) (c : TcpConnector)
    → c.handler ≡ some false
    → is_disconnected c.state ≡ true
    → connect e c ≡ by_errno e (asked c)
unfolding connect asked
connect-asked e c h d = ground arith

pub connect-Succeeds :
    (e : ConnectErrno) (c : TcpConnector)
    → IsValid c
    → is_disconnected c.state ≡ true
    → Succeeds (connect e c)
connect-Succeeds e c v d =
    let (r, f, w) = by_errno-Succeeds e c v d in
    (r, connect-asked e c (disconnected_lem c v d) d ∙ f, w)
