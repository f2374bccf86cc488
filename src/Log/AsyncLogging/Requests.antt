-- ===== src/Log/AsyncLogging/Requests.antt =====
-- src/log/AsyncLogging.cpp: what a schedule asks the log for, read off the schedule.
use hohnor.Prelude.{
  ◌-◌, ◌≡◌, refl, sym, ap, ◌∙◌, Bool, true, false, List, [], ◌∷◌, ◌++◌, append_assoc, append-nil,
  none, some, ltb, if_elim,
}
use hohnor.Thread.BlockingQueue
use hohnor.Thread.BlockingQueue.{BlockingQueue, take_of}
use hohnor.Log.AsyncLogging.{
  Buffer, Output, Phase, testing, taking, in_take, finished, holds, AsyncLog, add_log, set_stop,
  flush_log, last_flush, output_of, thread_step, Event, adds, stops, flushes_last, thread_goes,
  spurious, step, run,
}

-- What is asked for by a buffer that is handed in: that its data be appended, and by `nullptr` a flush.
abbrev pub asked : Buffer → Output
asked none = Output.flush
asked (some bytes) = Output.append bytes

pub output_of-asked : (b : Buffer) → output_of b ≡ asked b
output_of-asked none = refl
output_of-asked (some bytes) = refl

-- The buffers that a schedule hands in; `stopping` is whether the destructor has set `stop_`.
abbrev pub handed_in : Bool → List Event → List Buffer
handed_in stopping [] = []
handed_in stopping (adds b ∷ es) = b ∷ handed_in stopping es
handed_in stopping (stops ∷ es) = handed_in true es
handed_in true (flushes_last ∷ es) = none ∷ handed_in true es
handed_in false (flushes_last ∷ es) = handed_in false es
handed_in stopping (thread_goes ∷ es) = handed_in stopping es
handed_in stopping (spurious ∷ es) = handed_in stopping es

put-stored :
    (b : Buffer) (q : BlockingQueue Buffer) → (BlockingQueue.put b q).stored ≡ q.stored ++ b ∷ []
unfolding BlockingQueue.put
put-stored b q =
    if_elim (λ (r : BlockingQueue Buffer). r.stored ≡ q.stored ++ b ∷ []) (ltb 0 q.waiting)
      (λ _. refl) (λ _. refl)

take-stored : (q : BlockingQueue Buffer) → (BlockingQueue.take q).stored ≡ q.stored
unfolding BlockingQueue.take
take-stored q =
    if_elim (λ (r : BlockingQueue Buffer). r.stored ≡ q.stored) q.end_ (λ _. refl)
      (λ _. of_items q.queue)
  where
    of_items : (xs : List Buffer) → (take_of q xs).stored ≡ q.stored
    of_items [] = refl
    of_items (x ∷ xs) = refl

pass-stored :
    (q : BlockingQueue Buffer)
    → ((BlockingQueue.step q BlockingQueue.take_call).stored ≡ q.stored)
      × ((BlockingQueue.step q BlockingQueue.take_again).stored ≡ q.stored)
      × ((BlockingQueue.step q BlockingQueue.spurious).stored ≡ q.stored)
unfolding BlockingQueue.step
pass-stored q = (
  take-stored q,
  if_elim (λ (r : BlockingQueue Buffer). r.stored ≡ q.stored) (ltb 0 q.ready)
      (λ _. take-stored (record q { ready = q.ready - 1 })) (λ _. refl),
  if_elim (λ (r : BlockingQueue Buffer). r.stored ≡ q.stored) (ltb 0 q.waiting) (λ _. refl)
      (λ _. refl),
)

thread_step-stored :
    (p : Phase) (a : AsyncLog)
    → ((thread_step p a).queue.stored ≡ a.queue.stored) × ((thread_step p a).stop ≡ a.stop)
unfolding thread_step
thread_step-stored testing a =
    if_elim (λ (r : AsyncLog). (r.queue.stored ≡ a.queue.stored) × (r.stop ≡ a.stop)) a.stop
      (λ _. (refl, refl)) (λ _. (refl, refl))
thread_step-stored taking a = ((pass-stored a.queue).0, refl)
thread_step-stored in_take a =
    if_elim (λ (r : AsyncLog). (r.queue.stored ≡ a.queue.stored) × (r.stop ≡ a.stop))
      (ltb 0 a.queue.ready) (λ _. ((pass-stored a.queue).1, refl)) (λ _. (refl, refl))
thread_step-stored (holds b) a = (refl, refl)
thread_step-stored finished a = (refl, refl)

-- A step that hands in `new`, with `stop_` as it then is.
abbrev HandsIn : AsyncLog → Event → Bool → List Buffer → Type 0
HandsIn a e stopping new =
    ((step a e).queue.stored ≡ a.queue.stored ++ new) × ((step a e).stop ≡ stopping)

thread_goes-HandsIn : (a : AsyncLog) (b : Bool) → a.stop ≡ b → HandsIn a thread_goes b []
unfolding step
thread_goes-HandsIn a b h =
    let (s, k) = thread_step-stored a.phase a in (s ∙ sym (append-nil a.queue.stored), k ∙ h)

spurious-HandsIn : (a : AsyncLog) (b : Bool) → a.stop ≡ b → HandsIn a spurious b []
unfolding step
spurious-HandsIn a b h = ((pass-stored a.queue).2 ∙ sym (append-nil a.queue.stored), h)

last_flush-HandsIn :
    (a : AsyncLog) (b : Bool)
    → a.stop ≡ b
    → HandsIn a flushes_last b (handed_in b (flushes_last ∷ []))
unfolding step last_flush flush_log add_log
last_flush-HandsIn a true e = rw e (put-stored none a.queue, refl)
last_flush-HandsIn a false e = rw e (sym (append-nil a.queue.stored), refl)

-- What came into the queue is what the schedule hands in.
pub run-stored :
    (a : AsyncLog) (es : List Event) (b : Bool)
    → a.stop ≡ b
    → (run a es).queue.stored ≡ a.queue.stored ++ handed_in b es
unfolding run
run-stored a [] b h = sym (append-nil a.queue.stored)
run-stored a (e ∷ es) b h = by_event e b h (λ c k. run-stored (step a e) es c k)
  where
    joined :
        (e : Event) (c : Bool) (new : List Buffer)
        → HandsIn a e c new
        → ((c : Bool)
            → (step a e).stop ≡ c
            → (run (step a e) es).queue.stored ≡ (step a e).queue.stored ++ handed_in c es)
        → (run (step a e) es).queue.stored ≡ a.queue.stored ++ (new ++ handed_in c es)
    joined e c new (s, k) next =
        next c k
        ∙ ap (λ l. l ++ handed_in c es) s
        ∙ append_assoc a.queue.stored new (handed_in c es)

    by_event :
        (e : Event) (b : Bool)
        → a.stop ≡ b
        → ((c : Bool)
            → (step a e).stop ≡ c
            → (run (step a e) es).queue.stored ≡ (step a e).queue.stored ++ handed_in c es)
        → (run (step a e) es).queue.stored ≡ a.queue.stored ++ handed_in b (e ∷ es)
    by_event (adds x) b h next =
        joined (adds x) b (x ∷ []) (unfold step add_log in (put-stored x a.queue, h)) next
    by_event stops b h next =
        joined stops true [] (unfold step set_stop in (sym (append-nil a.queue.stored), refl)) next
    by_event flushes_last true h next =
        joined flushes_last true (none ∷ []) (last_flush-HandsIn a true h) next
    by_event flushes_last false h next =
        joined flushes_last false [] (last_flush-HandsIn a false h) next
    by_event thread_goes b h next = joined thread_goes b [] (thread_goes-HandsIn a b h) next
    by_event spurious b h next = joined spurious b [] (spurious-HandsIn a b h) next
