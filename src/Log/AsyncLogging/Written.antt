-- ===== src/Log/AsyncLogging/Written.antt =====
-- src/log/AsyncLogging.cpp: what is written, and what still waits, is what came in.
use hohnor.Prelude.{
  ℕ, ◌+◌, ◌-◌, ◌<◌, ◌≡◌, refl, sym, ap, ◌∙◌, Bool, true, false, List, [], ◌∷◌, ◌++◌, none, length,
  length-append, ltb, map, append-nil, arith, if_elim, ltb→lt,
}
use mathlib.Core.List.{map-append}
use hohnor.Thread.BlockingQueue
use hohnor.Thread.BlockingQueue.{BlockingQueue, take_of}
use hohnor.Thread.BlockingQueue.Delivery.{Delivers, step-Delivers, put-Delivers}
use hohnor.Log.AsyncLogging.Requests.{asked, output_of-asked, handed_in, run-stored}
use hohnor.Log.AsyncLogging.{
  Buffer, Output, Phase, testing, taking, in_take, finished, holds, AsyncLog, create, add_log,
  set_stop, flush_log, last_flush, in_hand, thread_step, Event, adds, stops, flushes_last,
  thread_goes, spurious, step, run,
}

-- The output that the thread is about to make.
abbrev pub pending : Phase → List Output
pending (holds b) = asked b ∷ []
pending testing = []
pending taking = []
pending in_take = []
pending finished = []

abbrev pub sleepers : Phase → ℕ
sleepers in_take = 1
sleepers testing = 0
sleepers taking = 0
sleepers finished = 0
sleepers (holds b) = 0

abbrev pub wants_buffer : Phase → Bool
wants_buffer taking = true
wants_buffer in_take = true
wants_buffer testing = false
wants_buffer finished = false
wants_buffer (holds b) = false

pub record IsAsyncLog (a : AsyncLog) : Type 0 where
  pub delivers : Delivers a.queue
  pub open_ : a.queue.end_ ≡ false
  pub written : a.outputs ++ pending a.phase ≡ map asked a.queue.taken
  pub thread : a.queue.waiting + a.queue.ready ≡ sleepers a.phase
  pub stopped : a.flushed ≡ true → a.stop ≡ true
  pub last : a.flushed ≡ true → wants_buffer a.phase ≡ true → 0 < length a.queue.queue

put-same :
    (b : Buffer) (q : BlockingQueue Buffer)
    → ((BlockingQueue.put b q).end_ ≡ q.end_)
      × ((BlockingQueue.put b q).taken ≡ q.taken)
      × ((BlockingQueue.put b q).waiting + (BlockingQueue.put b q).ready ≡ q.waiting + q.ready)
      × (length (BlockingQueue.put b q).queue ≡ length q.queue + 1)
unfolding BlockingQueue.put
put-same b q =
    if_elim
      (λ (r : BlockingQueue Buffer).
        (r.end_ ≡ q.end_)
        × (r.taken ≡ q.taken)
        × (r.waiting + r.ready ≡ q.waiting + q.ready)
        × (length r.queue ≡ length q.queue + 1))
      (ltb 0 q.waiting)
      (λ w. (refl, refl, ground arith, omega (arith, length-append q.queue (b ∷ []))))
      (λ w. (refl, refl, refl, omega (arith, length-append q.queue (b ∷ []))))

add_log-IsAsyncLog : (b : Buffer) (a : AsyncLog) → IsAsyncLog a → IsAsyncLog (add_log b a)
unfolding add_log
add_log-IsAsyncLog b a v =
    let (e, t, w, l) = put-same b a.queue in
    record {
      delivers = put-Delivers b a.queue v.delivers;
      open_ = e ∙ v.open_;
      written = v.written ∙ ap (map asked) (sym t);
      thread = w ∙ v.thread;
      stopped = v.stopped;
      last = λ f p. omega (arith, l);
    }

pass_of :
    (bs : List Buffer) (a : AsyncLog) (r : ℕ)
    → a.queue.waiting + r ≡ 0
    → a.queue.end_ ≡ false
    → a.outputs ≡ map asked a.queue.taken
    → (let q : BlockingQueue Buffer = take_of (record a.queue { ready = r }) bs in
        (q.end_ ≡ false)
        × (q.waiting + q.ready ≡ sleepers (in_hand bs))
        × (a.outputs ++ pending (in_hand bs) ≡ map asked q.taken))
pass_of [] a r n o e = (o, omega (arith, n), append-nil a.outputs ∙ e)
pass_of (b ∷ bs) a r n o e = (
  o,
  omega (arith, n),
  ap (λ os. os ++ asked b ∷ []) e ∙ sym (map-append asked a.queue.taken (b ∷ [])),
)

in_hand-wants : (bs : List Buffer) → 0 < length bs → wants_buffer (in_hand bs) ≡ false
in_hand-wants [] h = absurd (omega arith)
in_hand-wants (b ∷ bs) h = refl

spurious-same :
    (q : BlockingQueue Buffer)
    → ((BlockingQueue.step q BlockingQueue.spurious).end_ ≡ q.end_)
      × ((BlockingQueue.step q BlockingQueue.spurious).taken ≡ q.taken)
      × ((BlockingQueue.step q BlockingQueue.spurious).waiting
            + (BlockingQueue.step q BlockingQueue.spurious).ready
          ≡ q.waiting + q.ready)
      × ((BlockingQueue.step q BlockingQueue.spurious).queue ≡ q.queue)
unfolding BlockingQueue.step
spurious-same q =
    if_elim
      (λ (r : BlockingQueue Buffer).
        (r.end_ ≡ q.end_)
        × (r.taken ≡ q.taken)
        × (r.waiting + r.ready ≡ q.waiting + q.ready)
        × (r.queue ≡ q.queue))
      (ltb 0 q.waiting) (λ w. (refl, refl, ground arith, refl)) (λ w. (refl, refl, refl, refl))

-- A pass of `take`, with the thread not counted in the queue, whose ready takers are then `r`.
passed-IsAsyncLog :
    (a : AsyncLog) (r : ℕ) (e : BlockingQueue.Event Buffer)
    → BlockingQueue.step a.queue e ≡ take_of (record a.queue { ready = r }) a.queue.queue
    → a.queue.waiting + r ≡ 0
    → Delivers a.queue
    → a.queue.end_ ≡ false
    → a.outputs ≡ map asked a.queue.taken
    → (a.flushed ≡ true → a.stop ≡ true)
    → (a.flushed ≡ true → 0 < length a.queue.queue)
    → IsAsyncLog (record a { phase = in_hand a.queue.queue; queue = BlockingQueue.step a.queue e })
passed-IsAsyncLog a r e same n d o w stopped last =
    let (o', n', w') = pass_of a.queue.queue a r n o w in
    record {
      delivers = step-Delivers a.queue e d;
      open_ = rw same o';
      written = rw same w';
      thread = rw same n';
      stopped = stopped;
      last = λ f p. cc (in_hand-wants a.queue.queue (last f), p);
    }

take_call-open :
    (q : BlockingQueue Buffer)
    → q.end_ ≡ false
    → BlockingQueue.step q BlockingQueue.take_call ≡ take_of q q.queue
unfolding BlockingQueue.step BlockingQueue.take
take_call-open q e = rw e refl

take_again-open :
    (q : BlockingQueue Buffer)
    → q.end_ ≡ false
    → ltb 0 q.ready ≡ true
    → BlockingQueue.step q BlockingQueue.take_again
      ≡ take_of (record q { ready = q.ready - 1 }) q.queue
unfolding BlockingQueue.step BlockingQueue.take
take_again-open q e h = rw (h, e) refl

thread_step-IsAsyncLog :
    (p : Phase) (a : AsyncLog)
    → IsAsyncLog (record a { phase = p })
    → IsAsyncLog (thread_step p (record a { phase = p }))
unfolding thread_step
thread_step-IsAsyncLog testing a v =
    if_elim IsAsyncLog a.stop
      (λ s. record {
        delivers = v.delivers;
        open_ = v.open_;
        written = v.written;
        thread = v.thread;
        stopped = v.stopped;
        last = λ f p. cc;
      })
      (λ s. record {
        delivers = v.delivers;
        open_ = v.open_;
        written = v.written;
        thread = v.thread;
        stopped = v.stopped;
        last = λ f p. cc (v.stopped f, s);
      })
thread_step-IsAsyncLog taking a v =
    passed-IsAsyncLog (record a { phase = taking }) a.queue.ready BlockingQueue.take_call
      (take_call-open a.queue v.open_) v.thread v.delivers v.open_
      (sym (append-nil a.outputs) ∙ v.written) v.stopped (λ f. v.last f refl)
thread_step-IsAsyncLog in_take a v =
    if_elim IsAsyncLog (ltb 0 a.queue.ready)
      (λ h.
        passed-IsAsyncLog (record a { phase = in_take }) (a.queue.ready - 1)
          BlockingQueue.take_again (take_again-open a.queue v.open_ h)
          (omega (arith, v.thread, ltb→lt _ _ h)) v.delivers v.open_
          (sym (append-nil a.outputs) ∙ v.written) v.stopped (λ f. v.last f refl))
      (λ _. v)
thread_step-IsAsyncLog (holds b) a v = record {
  delivers = v.delivers;
  open_ = v.open_;
  written = append-nil _ ∙ ap (λ o. a.outputs ++ o ∷ []) (output_of-asked b) ∙ v.written;
  thread = v.thread;
  stopped = v.stopped;
  last = λ f p. cc;
}
thread_step-IsAsyncLog finished a v = v

pub step-IsAsyncLog : (a : AsyncLog) (e : Event) → IsAsyncLog a → IsAsyncLog (step a e)
unfolding step set_stop last_flush flush_log
step-IsAsyncLog a (adds b) v = add_log-IsAsyncLog b a v
step-IsAsyncLog a stops v = record {
  delivers = v.delivers;
  open_ = v.open_;
  written = v.written;
  thread = v.thread;
  stopped = λ f. refl;
  last = v.last;
}
step-IsAsyncLog a flushes_last v =
    let w = add_log-IsAsyncLog none a v in
    if_elim IsAsyncLog a.stop
      (λ s. record {
        delivers = w.delivers;
        open_ = w.open_;
        written = w.written;
        thread = w.thread;
        stopped = λ f. s;
        last = λ f p. omega (arith, (put-same none a.queue).3);
      })
      (λ _. v)
step-IsAsyncLog a thread_goes v = thread_step-IsAsyncLog a.phase a v
step-IsAsyncLog a spurious v =
    let (e, t, n, l) = spurious-same a.queue in
    record {
      delivers = step-Delivers a.queue BlockingQueue.spurious v.delivers;
      open_ = e ∙ v.open_;
      written = v.written ∙ ap (map asked) (sym t);
      thread = n ∙ v.thread;
      stopped = v.stopped;
      last = λ f p. omega (arith, v.last f p, ap length l);
    }

pub run-IsAsyncLog : (a : AsyncLog) (es : List Event) → IsAsyncLog a → IsAsyncLog (run a es)
unfolding run
run-IsAsyncLog a [] v = v
run-IsAsyncLog a (e ∷ es) v = run-IsAsyncLog (step a e) es (step-IsAsyncLog a e v)

pub create-IsAsyncLog : IsAsyncLog create
unfolding create BlockingQueue.create
create-IsAsyncLog = record {
  delivers = record { enough = refl; awake = refl; in_order = refl };
  open_ = refl;
  written = refl;
  thread = refl;
  stopped = λ f. cc;
  last = λ f p. cc;
}

-- On every schedule of threads that log and flush, of the log thread and of the destructor: the outputs made,
-- the one that the thread has in hand, and those for the buffers that still wait are those that the schedule asks
-- for, each once and in the order in which they came: that the data of a buffer be appended, or a flush.
pub run-in_order :
    (es : List Event)
    → (run create es).outputs
        ++ pending (run create es).phase
        ++ map asked (run create es).queue.queue
      ≡ map asked (handed_in false es)
unfolding create BlockingQueue.create
run-in_order es =
    let v = run-IsAsyncLog create es create-IsAsyncLog in
    let q = (run create es).queue in
    ap (λ os. os ++ map asked q.queue) v.written
    ∙ sym (map-append asked q.taken q.queue)
    ∙ ap (map asked) v.delivers.in_order
    ∙ ap (map asked) (run-stored create es false refl)
