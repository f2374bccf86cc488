-- ===== src/Net/TcpConnector/Safety.antt =====
-- src/net/TCPConnector.cpp: no check fails and no null handler is called, whatever happens.
use hohnor.Prelude.{
  ◌-◌, ◌≤◌, ◌≡◌, refl, sym, ap, ◌∙◌, Bool, true, false, not, Bool-cases, inl, inr, ◌⊎◌, List, [],
  ◌∷◌, none, some, arith, ltb, if◌then◌else◌, if_elim,
}
use hohnor.Net.TcpConnector.{
  ConnectorState, disconnected, connecting, connected, is_disconnected, is_connecting, TcpConnector,
  ConnectErrno, stop, handle_connect_write, connect, start, timer_fired, Event, user_start,
  user_stop, timer, errored, writable, step, run, fresh, max_retry_delay_ms, default_retry_delay_ms,
  is_watching, told, new_connection,
}
use hohnor.Net.TcpConnector.Attempts.{
  handler_in, IsValid, Succeeds, stop-fresh, stop-disconnected, has_handler, stop-Succeeds,
  retry-Succeeds, handle_connect_error-Succeeds, connect-Succeeds,
}

-- The connector that `start` connects.
unfoldable pub renewed : TcpConnector → TcpConnector
renewed s = record s {
  current_retries = 0;
  retry_delay_ms = (if s.constant_delay then s.retry_delay_ms else default_retry_delay_ms);
}

renewed-IsValid : (c : TcpConnector) → IsValid c → IsValid (renewed c)
unfolding renewed
renewed-IsValid c v = record { owns = v.owns; paced = paced }
  where
    paced :
        (c.constant_delay ≡ true)
        ⊎ ((default_retry_delay_ms
              ≤ (if c.constant_delay then c.retry_delay_ms else default_retry_delay_ms))
            × ((if c.constant_delay then c.retry_delay_ms else default_retry_delay_ms)
                ≤ max_retry_delay_ms))
    paced = elim (Bool-cases c.constant_delay) [ inl t ↦ inl t | inr f ↦ inr (ground arith) ]

stopped-disconnected :
    (c : TcpConnector)
    → IsValid c
    → (s : TcpConnector) × (stop c ≡ some s) × IsValid s × (is_disconnected s.state ≡ true)
stopped-disconnected c v = elim (Bool-cases (is_disconnected c.state)) [
  | inl t ↦ (c, stop-disconnected c t, v, t)
  | inr f ↦ (
    fresh c,
    stop-fresh c true (has_handler c v f) f,
    record { owns = refl; paced = v.paced },
    refl,
  )
]

pub start-renewed :
    (e : ConnectErrno) (c s : TcpConnector)
    → (if is_disconnected c.state then some c else stop c) ≡ some s
    → start e c ≡ connect e (renewed s)
unfolding start renewed
start-renewed e c s h = rw h

start-Succeeds : (e : ConnectErrno) (c : TcpConnector) → IsValid c → Succeeds (start e c)
start-Succeeds e c v =
    let (s, f, w, d) = stopped-disconnected c v in
    let (r, g, u) = connect-Succeeds e (renewed s) (renewed-IsValid s w) (unfold renewed in d) in
    (r, start-renewed e c s (same f) ∙ g, u)
  where
    same :
        {s : TcpConnector}
        → stop c ≡ some s
        → (if is_disconnected c.state then some c else stop c) ≡ some s
    same f = elim (Bool-cases (is_disconnected c.state)) [
      | inl t ↦ rw t (sym (stop-disconnected c t) ∙ f)
      | inr n ↦ rw n f
    ]

handle_connect_write-Succeeds :
    (err : Bool) (c : TcpConnector) → IsValid c → Succeeds (handle_connect_write err c)
unfolding handle_connect_write
handle_connect_write-Succeeds err c v =
    if_elim Succeeds (not (is_connecting c.state)) (λ t. (c, refl, v))
      (λ n.
        if_elim Succeeds err (λ t. retry-Succeeds c v)
          (λ f.
            let h = by_state c.state v.owns n in
            (
              record c {
                state = connected;
                handler = none;
                notices = told new_connection c.new_connection_callback c.notices;
              },
              ground arith,
              record { owns = refl; paced = v.paced },
            )))
  where
    by_state :
        (st : ConnectorState)
        → c.handler ≡ handler_in st
        → not (is_connecting st) ≡ false
        → c.handler ≡ some true
    by_state connecting h n = h
    by_state disconnected h n = cc
    by_state connected h n = cc

pub step-Succeeds : (e : Event) (c : TcpConnector) → IsValid c → Succeeds (step e c)
unfolding step timer_fired
step-Succeeds (user_start e) c v = start-Succeeds e c v
step-Succeeds (timer e) c v =
    let w : IsValid (record c { timers = c.timers - 1 }) = record {
      owns = v.owns;
      paced = v.paced;
    } in
    if_elim Succeeds (ltb 0 c.timers)
      (λ t.
        if_elim Succeeds (is_disconnected c.state)
          (λ d. connect-Succeeds e (record c { timers = c.timers - 1 }) w d)
          (λ n. (record c { timers = c.timers - 1 }, refl, w)))
      (λ f. (c, refl, v))
step-Succeeds user_stop c v = stop-Succeeds c v
step-Succeeds errored c v =
    if_elim Succeeds (is_watching c) (λ t. handle_connect_error-Succeeds c v) (λ f. (c, refl, v))
step-Succeeds (writable err) c v =
    if_elim Succeeds (is_watching c) (λ t. handle_connect_write-Succeeds err c v)
      (λ f. (c, refl, v))

-- From a valid connector, whatever the user, the timers and the poller do, in any order and with any
-- results of `connect`: no
-- check of the connector fails and it never calls through a null handler; its handler is null exactly
-- while it is connected, and enabled exactly while it connects; and a delay that is not constant stays
-- between half a second and thirty seconds.
pub run-IsValid : (es : List Event) (c : TcpConnector) → IsValid c → Succeeds (run es c)
unfolding run
run-IsValid [] c v = (c, refl, v)
run-IsValid (e ∷ es) c v =
    let (d, f, w) = step-Succeeds e c v in
    let (r, g, u) = run-IsValid es d w in
    (r, ap (λ m. elim m [ none ↦ none | some d ↦ run es d ]) f ∙ g, u)
