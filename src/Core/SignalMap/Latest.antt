-- ===== src/Core/SignalMap/Latest.antt =====
-- `EventLoop::handleSignal`: each signal has one handler, which obeys the last call for it.
use hohnor.Prelude.{
  ℕ, ◌≡◌, ◌≢◌, refl, ap, ◌∙◌, ◌⊎◌, inl, inr, true, false, Bool, ◌||◌, sym, some-inj, Bool-cases,
  List, [], ◌∷◌, Option, none, some, if◌then◌else◌, ◌==◌, subst, arith,
}
use hohnor.Core.Signal.{SignalAction, ignored, default, handled, SignalHandler, Kernel, in_range}
use hohnor.Core.Signal.Fate.{Succeed, Obeys, Set, create-Obeys, update-Obeys}
use hohnor.Core.Signal.Unmade.{MakesNone, create-MakesNone, update-MakesNone}
use hohnor.Core.SignalMap.{Call, find_handler, set_handler, next_handler, handle_signal, handle_all}

find-set_self :
    (signal : ℕ) (t : SignalHandler) (ts : List SignalHandler)
    → t.signal ≡ signal
    → find_handler signal (set_handler signal t ts) ≡ some t
unfolding find_handler set_handler
find-set_self signal t [] e = ground arith
find-set_self signal t (x ∷ xs) e = elim (Bool-cases (x.signal == signal)) [
  | inl y ↦ rw y (ground arith)
  | inr n ↦ rw n (rw n (find-set_self signal t xs e))
]

find-set_other :
    (s signal : ℕ) (t : SignalHandler) (ts : List SignalHandler)
    → t.signal ≡ signal
    → s ≢ signal
    → find_handler s (set_handler signal t ts) ≡ find_handler s ts
unfolding find_handler set_handler
find-set_other s signal t [] e d = ground arith
find-set_other s signal t (x ∷ xs) e d = elim (Bool-cases (x.signal == signal)) [
  | inl y ↦ rw y (ground arith)
  | inr n ↦ rw n (ap (λ r. if x.signal == s then some x else r) (find-set_other s signal t xs e d))
]

-- The last call for each signal: its action and its callback.
abbrev pub Latest : Type 0
Latest = ℕ → Option (SignalAction × Option ℕ)

abbrev pub after : Latest → Call → Latest
after latest c = λ s. if s == c.signal then some (c.action, c.callback) else latest s

abbrev pub last_calls : Latest → List Call → Latest
last_calls latest [] = latest
last_calls latest (c ∷ calls) = last_calls (after latest c) calls

-- What stands for a signal in the map.
abbrev pub StandsFor : ℕ → Option (SignalAction × Option ℕ) → Option SignalHandler → Type 0
StandsFor s none none = Unit {0}
StandsFor s none (some t) = ⊥
StandsFor s (some (a, cb)) none = ⊥
StandsFor s (some (a, cb)) (some t) = (t.action ≡ a) × (t.signal ≡ s) × Obeys t cb

abbrev is_handled : SignalAction → Bool
is_handled handled = true
is_handled ignored = false
is_handled default = false

-- Whether `Handled` has been asked for a signal.
abbrev pub Asked : Type 0
Asked = ℕ → Bool

abbrev pub ask : Asked → Call → Asked
ask asked c = λ s. if s == c.signal then is_handled c.action || asked s else asked s

-- The system calls succeed, the signals exist, and `Handled` is asked for at most once for each signal.
abbrev pub Allowed : Asked → List Call → Type 0
Allowed asked [] = Unit {0}
Allowed asked (c ∷ calls) =
    (in_range c.signal ≡ true)
    × Succeed c.answers
    × ((c.action ≢ handled) ⊎ (asked c.signal ≡ false))
    × Allowed (ask asked c) calls

-- There is no IO handler where `Handled` has not been asked for.
abbrev Unmade : Bool → Option SignalHandler → Type 0
Unmade true o = Unit {0}
Unmade false none = Unit {0}
Unmade false (some t) = t.io_handler ≡ none

Unmade-false :
    (asked : Bool) (t : SignalHandler) → asked ≡ false → Unmade asked (some t) → t.io_handler ≡ none
Unmade-false false t e u = u
Unmade-false true t e u = cc e

Unmade-or :
    (a : SignalAction) (asked : Bool) (t : SignalHandler)
    → (a ≢ handled → asked ≡ false → t.io_handler ≡ none)
    → Unmade (is_handled a || asked) (some t)
Unmade-or handled asked t f = tt
Unmade-or ignored true t f = tt
Unmade-or ignored false t f = f (λ e. cc e) refl
Unmade-or default true t f = tt
Unmade-or default false t f = f (λ e. cc e) refl

abbrev Entry : ℕ → Option (SignalAction × Option ℕ) → Bool → Option SignalHandler → Type 0
Entry s l asked o = StandsFor s l o × Unmade asked o

abbrev Goes : Option SignalHandler → Call → Bool → Type 0
Goes r c asked =
    (t : SignalHandler) × (r ≡ some t)
    × (t.signal ≡ c.signal)
    × Entry c.signal (some (c.action, c.callback)) (is_handled c.action || asked) (some t)

goes :
    (r : Option SignalHandler) (c : Call) (asked : Bool)
    → Set r c.signal c.action c.callback
    → (c.action ≢ handled → asked ≡ false → MakesNone r)
    → Goes r c asked
goes r c asked (t, e, ea, es, o) none_made = (
  t,
  e,
  es,
  (
    (ea, es, o),
    Unmade-or c.action asked t λ n f.
        let (t', e', g) = none_made n f in
        subst (λ i. i.io_handler ≡ none) (some-inj t' t (sym e' ∙ e)) g,
  ),
)

next_handler-Goes :
    (kernel : ℕ → Kernel) (c : Call) (l : Option (SignalAction × Option ℕ)) (asked : Bool)
    (m : Option SignalHandler)
    → Entry c.signal l asked m
    → in_range c.signal ≡ true
    → Succeed c.answers
    → (c.action ≢ handled) ⊎ (asked ≡ false)
    → Goes (next_handler kernel c m) c asked
unfolding next_handler
next_handler-Goes kernel c none asked none (v, u) b w h =
    goes _ c asked (create-Obeys c.answers w c.signal b (kernel c.signal) c.action c.callback)
      λ n f. create-MakesNone c.answers w (kernel c.signal) c.signal c.action c.callback n b
next_handler-Goes kernel c none asked (some t) (v, u) b w h = absurd v
next_handler-Goes kernel c (some (a, cb)) asked none (v, u) b w h = absurd v
next_handler-Goes kernel c (some (a, cb)) asked (some t) ((e, s, o), u) b w h =
    let b' : in_range t.signal ≡ true = ap in_range s ∙ b in
    let (t', r, ea, es, o') =
      update-Obeys c.answers c.quit c.action cb c.callback t w b' o (by_case h) in
    goes _ c asked (t', r, ea, es ∙ s, o')
      λ n f.
        update-MakesNone c.answers w c.quit c.action c.callback cb t n b' o
          (Unmade-false asked t f u)
  where
    by_case : (c.action ≢ handled) ⊎ (asked ≡ false) → (c.action ≢ handled) ⊎ (t.io_handler ≡ none)
    by_case (inl n) = inl n
    by_case (inr f) = inr (Unmade-false asked t f u)

-- The map holds what the calls ask for.
abbrev Holds : Latest → Asked → List SignalHandler → Type 0
Holds latest asked signals = (s : ℕ) → Entry s (latest s) (asked s) (find_handler s signals)

set_handler-Holds :
    (latest : Latest) (asked : Asked) (c : Call) (t : SignalHandler) (signals : List SignalHandler)
    → Holds latest asked signals
    → t.signal ≡ c.signal
    → Entry c.signal (some (c.action, c.callback)) (is_handled c.action || asked c.signal) (some t)
    → Holds (after latest c) (ask asked c) (set_handler c.signal t signals)
set_handler-Holds latest asked c t signals v e w s = elim (Bool-cases (s == c.signal)) [
  | inl y ↦
      let same : c.signal ≡ s = ground arith in
      rw y (
        subst
          (λ n.
            Entry n (some (c.action, c.callback)) (is_handled c.action || asked n)
              (find_handler n (set_handler c.signal t signals)))
          same (rw (find-set_self c.signal t signals e) w))
  | inr n ↦
      let other : s ≢ c.signal = ground arith in
      rw (n, find-set_other s c.signal t signals e other) (v s)
]

handle_all-Holds :
    (kernel : ℕ → Kernel) (calls : List Call) (latest : Latest) (asked : Asked)
    (signals : List SignalHandler)
    → Holds latest asked signals
    → Allowed asked calls
    → (r : List SignalHandler) × (handle_all kernel calls signals ≡ some r)
      × ((s : ℕ) → StandsFor s (last_calls latest calls s) (find_handler s r))
unfolding handle_all handle_signal
handle_all-Holds kernel [] latest asked signals v w = (signals, refl, λ s. (v s).0)
handle_all-Holds kernel (c ∷ calls) latest asked signals v (b, w, h, ws) =
    let (t, e, es, o) =
      next_handler-Goes kernel c (latest c.signal) (asked c.signal) (find_handler c.signal signals)
        (v c.signal) b w h in
    let (r, e', z) =
      handle_all-Holds kernel calls (after latest c) (ask asked c) (set_handler c.signal t signals)
        (set_handler-Holds latest asked c t signals v es o) ws in
    (r, rw e e', z)

-- After any sequence of calls of `handleSignal` whose system calls succeed, which name signals that there are, and
-- which ask for `Handled` at most once for each signal: each signal that was called for has one handler, whose
-- action is that of the last call for it, and the signal and its IO handler obey it; and the other signals have
-- none.
pub handle_all-latest :
    (kernel : ℕ → Kernel) (calls : List Call)
    → Allowed (λ s. false) calls
    → (r : List SignalHandler) × (handle_all kernel calls [] ≡ some r)
      × ((s : ℕ) → StandsFor s (last_calls (λ s. none) calls s) (find_handler s r))
unfolding find_handler
handle_all-latest kernel calls w =
    handle_all-Holds kernel calls (λ s. none) (λ s. false) [] (λ s. (tt, tt)) w
