-- ===== src/Net/TcpConnector/Backoff.antt =====
-- src/net/TCPConnector.cpp: how often a refused connection is tried again, and after which delays.
use hohnor.Prelude.{
  ℕ, zero, suc, ◌+◌, ◌-◌, ◌*◌, ◌^◌, ◌≡◌, refl, ap, ap₂, ◌∙◌, min, true, false, List, [], ◌∷◌, ◌++◌,
  none, some, arith, if◌then◌else◌,
}
use native.Mathlib.Numerals.{unary_clauses}
use hohnor.Prelude.Int.{pos}
use hohnor.Net.TcpConnector.{
  disconnected, is_disconnected, TcpConnector, conn_refused, Notice, told, retrying, failed, stop,
  schedule_retry, give_up, connect, timer_fired, by_errno, Event, user_start, timer, step, run,
  next_delay, fresh,
}
use hohnor.Net.TcpConnector.Attempts.{asked, connect-asked, stop-asked, retried, retry-retried}
use hohnor.Net.TcpConnector.Safety.{renewed, start-renewed}

-- The delay before the `k`-th retry: doubled from half a second on, and no more than thirty.
abbrev pub backoff : ℕ → ℕ
backoff k = min (500 * 2 ^ k) 30000

-- The delays of `n` retries behind the first `k`, the latest first, and the callbacks.
abbrev pub backoffs : ℕ → ℕ → List ℕ
backoffs k zero = []
backoffs k (suc n) = backoff (k + suc n) ∷ backoffs k n

abbrev pub repeated : ℕ → Notice → List Notice
repeated zero e = []
repeated (suc n) e = e ∷ repeated n e

backoff_lem : (k : ℕ) → min (backoff k * 2) 30000 ≡ backoff (k + 1)
backoff_lem k = omega (arith, twice)
  where
    twice : 2 ^ (k + 1) ≡ 2 ^ k * 2
    twice = simp unary_clauses refl

backoffs-first :
    (k n : ℕ) (xs : List ℕ) → backoffs (k + 1) n ++ backoff (k + 1) ∷ xs ≡ backoffs k (suc n) ++ xs
backoffs-first k zero xs = ap (λ m. backoff m ∷ xs) (omega arith)
backoffs-first k (suc n) xs = ap₂ (λ m l. backoff m ∷ l) (omega arith) (backoffs-first k n xs)

repeated-first :
    (n : ℕ) (e : Notice) (xs : List Notice) → repeated n e ++ e ∷ xs ≡ e ∷ (repeated n e ++ xs)
repeated-first zero e xs = refl
repeated-first (suc n) e xs = ap (λ l. e ∷ l) (repeated-first n e xs)

-- A connector between two attempts, `k` retries in, with `n` left and the callbacks `r` and `f`.
record Waits (r f k n : ℕ) (c : TcpConnector) : Type 0 where
  idle : c.state ≡ disconnected
  handler : c.handler ≡ some false
  left : c.max_retries ≡ pos (k + n)
  tried : c.current_retries ≡ k
  growing : c.constant_delay ≡ false
  delay : c.retry_delay_ms ≡ backoff k
  on_retry : c.retry_callback ≡ some r
  on_failed : c.failed_callback ≡ some f

connect-refused :
    (c : TcpConnector)
    → c.handler ≡ some false
    → is_disconnected c.state ≡ true
    → connect conn_refused c ≡ some (retried (fresh (asked c)))
unfolding by_errno
connect-refused c h d =
    connect-asked conn_refused c h d ∙ retry-retried (asked c) (fresh (asked c)) (stop-asked c h)

grown-delay :
    {r f k n : ℕ} (c : TcpConnector)
    → Waits r f k n c
    → next_delay (fresh (asked c)) ≡ backoff (k + 1)
unfolding asked
grown-delay {r} {f} {k} c w = let a = w.growing in let b = w.delay in ground (arith, backoff_lem k)

-- A refused attempt with a retry left, and with none.
refused-again :
    {r f : ℕ} (k n : ℕ) (c : TcpConnector)
    → Waits r f k (suc n) c
    → (connect conn_refused c ≡ some (schedule_retry (fresh (asked c))))
      × Waits r f (k + 1) n (schedule_retry (fresh (asked c)))
refused-again {r} {f} k n c w =
    (connect-refused c w.handler (ap is_disconnected w.idle) ∙ ap some again, after)
  where
    again : retried (fresh (asked c)) ≡ schedule_retry (fresh (asked c))
    again = let a = w.left in let b = w.tried in unfold retried asked in ground arith

    after : Waits r f (k + 1) n (schedule_retry (fresh (asked c)))
    after =
        unfold schedule_retry asked in
        record {
          idle = refl;
          handler = refl;
          left = w.left ∙ ap pos (omega arith);
          tried = ap (λ m. m + 1) w.tried;
          growing = w.growing;
          delay = grown-delay c w;
          on_retry = w.on_retry;
          on_failed = w.on_failed;
        }

refused-last :
    {r f : ℕ} (k : ℕ) (c : TcpConnector)
    → Waits r f k 0 c
    → connect conn_refused c ≡ some (give_up (fresh (asked c)))
refused-last k c w = connect-refused c w.handler (ap is_disconnected w.idle) ∙ ap some last
  where
    last : retried (fresh (asked c)) ≡ give_up (fresh (asked c))
    last = let a = w.left in let b = w.tried in unfold retried asked in ground arith

-- What is left of a connector that made `m` more attempts and gave up after `n` more retries.
pub record GaveUp (r f k m n : ℕ) (c d : TcpConnector) : Type 0 where
  pub idle : d.state ≡ disconnected
  pub no_timer : d.timers ≡ 0
  pub made : d.attempts ≡ c.attempts + m
  pub waited : d.delays ≡ backoffs k n ++ c.delays
  pub called : d.notices ≡ failed f ∷ (repeated n (retrying r) ++ c.notices)

-- The connector without the timer that fired.
abbrev fired : TcpConnector → TcpConnector
fired c = record c { timers = 0 }

step-timer :
    (c : TcpConnector)
    → c.timers ≡ 1
    → c.state ≡ disconnected
    → step (timer conn_refused) c ≡ connect conn_refused (fired c)
unfolding step timer_fired
step-timer c t d =
    let e : step (timer conn_refused) c
        ≡ connect conn_refused (record c { timers = c.timers - 1 }) =
      ground arith in
    e ∙ ap (λ m. connect conn_refused (record c { timers = m })) (omega arith)

abbrev pub refusals : ℕ → List Event
refusals zero = []
refusals (suc n) = timer conn_refused ∷ refusals n

run-next :
    (e : Event) (es : List Event) (c : TcpConnector) {d : TcpConnector}
    → step e c ≡ some d
    → run (e ∷ es) c ≡ run es d
unfolding run
run-next e es c h = ap (λ m. elim m [ none ↦ none | some t ↦ run es t ]) h

run-nothing : (c : TcpConnector) → run [] c ≡ some c
unfolding run
run-nothing c = refl

fired-Waits : {r f k n : ℕ} (c : TcpConnector) → Waits r f k n c → Waits r f k n (fired c)
fired-Waits c w = record {
  idle = w.idle;
  handler = w.handler;
  left = w.left;
  tried = w.tried;
  growing = w.growing;
  delay = w.delay;
  on_retry = w.on_retry;
  on_failed = w.on_failed;
}

give_up-GaveUp :
    {r f k : ℕ} (c : TcpConnector)
    → Waits r f k 0 c
    → c.timers ≡ 0
    → GaveUp r f k 1 0 c (give_up (fresh (asked c)))
unfolding give_up asked
give_up-GaveUp {r} {f} c w t = record {
  idle = refl;
  no_timer = t;
  made = refl;
  waited = refl;
  called = ap (λ cb. told failed cb c.notices) w.on_failed;
}

again-lem :
    {r f k n : ℕ} (c : TcpConnector)
    → Waits r f k (suc n) c
    → c.timers ≡ 0
    → let d = schedule_retry (fresh (asked c)) in
      (d.timers ≡ 1)
      × (d.attempts ≡ c.attempts + 1)
      × (d.delays ≡ backoff (k + 1) ∷ c.delays)
      × (d.notices ≡ retrying r ∷ c.notices)
unfolding schedule_retry asked
again-lem {r} {f} {k} {n} c w t = (
  omega arith,
  refl,
  ap (λ m. m ∷ c.delays) (grown-delay c w),
  ap (λ cb. told retrying cb c.notices) w.on_retry,
)

-- Attempts that are all refused, from an event that makes the first.
refused-GaveUp :
    {r f : ℕ} (k n : ℕ) (c : TcpConnector)
    → Waits r f k n c
    → c.timers ≡ 0
    → (e : Event) (b : TcpConnector) → step e b ≡ connect conn_refused c
    → (d : TcpConnector) × (run (e ∷ refusals n) b ≡ some d) × GaveUp r f k (suc n) n c d
refused-GaveUp {r} {f} k zero c w t e b s = (
  give_up (fresh (asked c)),
  run-next e [] b (s ∙ refused-last k c w) ∙ run-nothing (give_up (fresh (asked c))),
  give_up-GaveUp c w t,
)
refused-GaveUp {r} {f} k (suc n) c w t e b s =
    let a = schedule_retry (fresh (asked c)) in
    let (again, v) = refused-again k n c w in
    let (t1, made, waited, called) = again-lem c w t in
    let (d, h, g) =
      refused-GaveUp (k + 1) n (fired a) (fired-Waits a v) refl (timer conn_refused) a
        (step-timer a t1 v.idle) in
    (
      d,
      run-next e (refusals (suc n)) b (s ∙ again) ∙ h,
      record {
        idle = g.idle;
        no_timer = g.no_timer;
        made = omega (arith, g.made, made);
        waited = g.waited ∙ ap (λ l. backoffs (k + 1) n ++ l) waited ∙ backoffs-first k n c.delays;
        called =
            g.called
            ∙ ap (λ l. failed f ∷ (repeated n (retrying r) ++ l)) called
            ∙ ap (λ l. failed f ∷ l) (repeated-first n (retrying r) c.notices);
      },
    )

-- `start` on an idle connector with both callbacks, delays that grow and `n` retries allowed, where each
-- attempt is refused: it makes `n + 1` attempts and asks for no more timers, the `k`-th retry waits
-- 500 * 2^k ms or 30 s if that is less, the retry callback runs for each, and then the failed callback, once.
pub start-gives_up :
    (r f n : ℕ) (c : TcpConnector)
    → c.state ≡ disconnected
    → c.handler ≡ some false
    → c.max_retries ≡ pos n
    → c.constant_delay ≡ false
    → c.retry_callback ≡ some r
    → c.failed_callback ≡ some f
    → c.timers ≡ 0
    → (d : TcpConnector) × (run (user_start conn_refused ∷ refusals n) c ≡ some d)
      × GaveUp r f 0 (suc n) n c d
start-gives_up r f n c idle handler left growing on_retry on_failed no_timer =
    let (d, e, g) =
      refused-GaveUp 0 n (renewed c) waits (unfold renewed in no_timer) (user_start conn_refused) c
        begun in
    (
      d,
      e,
      unfold renewed in
          record {
            idle = g.idle;
            no_timer = g.no_timer;
            made = g.made;
            waited = g.waited;
            called = g.called;
          },
    )
  where
    waits : Waits r f 0 n (renewed c)
    waits =
        unfold renewed in
        record {
          idle = idle;
          handler = handler;
          left = left ∙ ap pos (omega arith);
          tried = refl;
          growing = growing;
          delay = ground arith;
          on_retry = on_retry;
          on_failed = on_failed;
        }

    begun : step (user_start conn_refused) c ≡ connect conn_refused (renewed c)
    begun =
        let e : (if is_disconnected c.state then some c else stop c) ≡ some c = ground arith in
        unfold step in start-renewed conn_refused c c e
