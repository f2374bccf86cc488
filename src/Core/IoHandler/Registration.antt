-- ===== src/Core/IoHandler/Registration.antt =====
-- src/core/IOHandler.cpp against epoll: the commands are ones that epoll accepts, and its interest
-- follows the handler's status and events.
use hohnor.Prelude.{
  ℕ, ◌≡◌, ◌≢◌, Bool-cases, inl, inr, refl, sym, ◌∙◌, subst, some-inj, Bool, true, false, not, ◌&&◌,
  List, [], ◌∷◌, Option, none, some, if◌then◌else◌, ◌>>=◌, arith,
}
use hohnor.Core.IoHandler.{
  IoHandler, Events, Status, created, enabled, disabled, Ctl, add, modify, remove, create,
  is_enabled, update_in_loop, update, enable, disable, set_read_event, set_write_event,
  set_close_event, set_error_event, refresh, clean_callbacks, update_from, set_read_callback,
  set_write_callback, set_close_callback, set_error_callback, is_some,
}

-- What epoll holds for the descriptor: its events, if it is registered.
abbrev pub Interest : Type 0
Interest = Option Events

-- epoll(7): a registered descriptor is not added again, and one that is not registered is neither
-- modified nor removed. `none` is the error of `epoll_ctl`.
abbrev pub accept : Ctl → Interest → Option Interest
accept (add e) none = some (some e)
accept (add e) (some old) = none
accept (modify e) none = none
accept (modify e) (some old) = some (some e)
accept remove none = none
accept remove (some old) = some none

unfoldable pub replay : List Ctl → Option Interest
replay [] = some none
replay (c ∷ log) = replay log >>= accept c

abbrev pub wanted : IoHandler → Interest
wanted h = if is_enabled h.status then some h.events else none

-- The log is accepted, and leaves exactly the events of an enabled handler registered.
abbrev pub InSync : IoHandler → Type 0
InSync h = replay h.ctl_log ≡ some (wanted h)

abbrev Keeps : Option IoHandler → Type 0
Keeps r = (h : IoHandler) × (r ≡ some h) × InSync h

-- Any events may be registered, so long as the handler is enabled.
Tracks : IoHandler → Type 0
Tracks h = (w : Interest) × (replay h.ctl_log ≡ some w) × (is_some w ≡ is_enabled h.status)

Tracks-of_sync : (h : IoHandler) → InSync h → Tracks h
unfolding Tracks
Tracks-of_sync h s = (wanted h, s, ground arith)

enabled-Keeps : (h : IoHandler) → Tracks h → Keeps (update_in_loop h enabled)
unfolding update_in_loop Tracks replay
enabled-Keeps h (w, s, t) = enabled_from h.status w refl s t
  where
    enabled_from :
        (st : Status) (w : Interest)
        → h.status ≡ st
        → replay h.ctl_log ≡ some w
        → is_some w ≡ is_enabled h.status
        → Keeps (update_in_loop h enabled)
    enabled_from created none e s t = rw e (_, refl, rw s)
    enabled_from disabled none e s t = rw e (_, refl, rw s)
    enabled_from enabled (some w) e s t = rw e (_, refl, rw s)
    enabled_from created (some w) e s t = absurd (ground arith)
    enabled_from disabled (some w) e s t = absurd (ground arith)
    enabled_from enabled none e s t = absurd (ground arith)

disabled-Keeps :
    (h : IoHandler) (w : Interest)
    → h.status ≡ enabled
    → replay h.ctl_log ≡ some w
    → is_some w ≡ is_enabled h.status
    → Keeps (update_in_loop h disabled)
unfolding update_in_loop replay
disabled-Keeps h (some w) e s t = rw e (_, refl, rw s)
disabled-Keeps h none e s t = absurd (ground arith)

update_from-Keeps :
    (h : IoHandler) (st next : Status)
    → h.status ≡ st
    → next ≢ created
    → InSync h
    → Keeps (update_from h st next)
unfolding update_from
update_from-Keeps h st created e n s = absurd (n refl)
update_from-Keeps h created disabled e n s = (record h { status = disabled }, refl, ground arith)
update_from-Keeps h disabled disabled e n s = (h, refl, s)
update_from-Keeps h enabled disabled e n s = disabled-Keeps h (wanted h) e s (ground arith)
update_from-Keeps h created enabled e n s = enabled-Keeps h (Tracks-of_sync h s)
update_from-Keeps h disabled enabled e n s = enabled-Keeps h (Tracks-of_sync h s)
update_from-Keeps h enabled enabled e n s = enabled-Keeps h (Tracks-of_sync h s)

update-Keeps : (h : IoHandler) (next : Status) → next ≢ created → InSync h → Keeps (update h next)
unfolding update
update-Keeps h next n s = update_from-Keeps h h.status next refl n s

refresh-Keeps : (h : IoHandler) → Tracks h → Keeps (refresh h)
unfolding refresh Tracks
refresh-Keeps h t = elim (Bool-cases (is_enabled h.status)) [
  | inl e ↦ rw e (enabled-Keeps h t)
  | inr e ↦ rw e (h, refl, ground arith)
]

-- The calls that a handler's users make; `disables` has the loop's `quit_` then.
pub data Call : Type 0 where
  enables : Call
  disables : Bool → Call
  read_callback write_callback close_callback error_callback : Option ℕ → Call
  read_event write_event close_event error_event : Bool → Call

unfoldable pub apply : IoHandler → Call → Option IoHandler
apply h enables = enable h
apply h (disables quit) = disable quit h
apply h (read_callback cb) = set_read_callback cb h
apply h (write_callback cb) = set_write_callback cb h
apply h (close_callback cb) = set_close_callback cb h
apply h (error_callback cb) = set_error_callback cb h
apply h (read_event on) = set_read_event on h
apply h (write_event on) = set_write_event on h
apply h (close_event on) = set_close_event on h
apply h (error_event on) = set_error_event on h

-- Whether the call disables the handler when the loop has been asked to end.
abbrev pub quits : Call → Bool
quits enables = false
quits (disables quit) = quit
quits (read_callback cb) = false
quits (write_callback cb) = false
quits (close_callback cb) = false
quits (error_callback cb) = false
quits (read_event on) = false
quits (write_event on) = false
quits (close_event on) = false
quits (error_event on) = false

pub apply-Keeps : (h : IoHandler) (c : Call) → quits c ≡ false → InSync h → Keeps (apply h c)
unfolding apply enable disable Tracks set_read_callback set_write_callback set_close_callback
    set_error_callback
apply-Keeps h enables q s = update-Keeps h enabled (λ e. cc) s
apply-Keeps h (disables true) q s = cc q
apply-Keeps h (disables false) q s = update-Keeps (clean_callbacks h) disabled (λ e. cc) s
apply-Keeps h (read_callback cb) q s =
    refresh-Keeps (record h { read_callback = cb; events = record h.events { read = is_some cb } })
      (Tracks-of_sync h s)
apply-Keeps h (write_callback cb) q s =
    refresh-Keeps
      (record h { write_callback = cb; events = record h.events { write = is_some cb } })
      (Tracks-of_sync h s)
apply-Keeps h (close_callback cb) q s =
    refresh-Keeps
      (record h { close_callback = cb; events = record h.events { close = is_some cb } })
      (Tracks-of_sync h s)
apply-Keeps h (error_callback cb) q s =
    refresh-Keeps
      (record h { error_callback = cb; events = record h.events { error = is_some cb } })
      (Tracks-of_sync h s)
apply-Keeps h (read_event on) q s =
    refresh-Keeps (record h { events = record h.events { read = on } }) (Tracks-of_sync h s)
apply-Keeps h (write_event on) q s =
    refresh-Keeps (record h { events = record h.events { write = on } }) (Tracks-of_sync h s)
apply-Keeps h (close_event on) q s =
    refresh-Keeps (record h { events = record h.events { close = on } }) (Tracks-of_sync h s)
apply-Keeps h (error_event on) q s =
    refresh-Keeps (record h { events = record h.events { error = on } }) (Tracks-of_sync h s)

unfoldable pub calls : IoHandler → List Call → Option IoHandler
calls h [] = some h
calls h (c ∷ cs) = elim (apply h c) [ none ↦ none | some k ↦ calls k cs ]

-- No check of these calls fails, whatever epoll holds.
abbrev Returns : Option IoHandler → Type 0
Returns r = (h : IoHandler) × (r ≡ some h)

refresh-Returns : (h : IoHandler) → Returns (refresh h)
unfolding refresh
refresh-Returns h = by_status h.status refl
  where
    by_status : (st : Status) → h.status ≡ st → Returns (refresh h)
    by_status created e = rw e (_, refl)
    by_status disabled e = rw e (_, refl)
    by_status enabled e = rw e (_, refl)

enable-Returns : (h : IoHandler) → Returns (enable h)
unfolding enable update
enable-Returns h = by_status h.status refl
  where
    by_status : (st : Status) → h.status ≡ st → Returns (update_from h st enabled)
    by_status created e = unfold update_from in rw e (_, refl)
    by_status disabled e = unfold update_from in rw e (_, refl)
    by_status enabled e = unfold update_from in rw e (_, refl)

disable-Returns : (quit : Bool) (h : IoHandler) → Returns (disable quit h)
unfolding disable update
disable-Returns true h = (_, refl)
disable-Returns false h = by_status h.status refl
  where
    by_status :
        (st : Status) → h.status ≡ st → Returns (update_from (clean_callbacks h) st disabled)
    by_status created e = unfold update_from in (_, refl)
    by_status disabled e = unfold update_from in (_, refl)
    by_status enabled e = unfold update_from in rw e (_, refl)

apply-Returns : (h : IoHandler) (c : Call) → Returns (apply h c)
unfolding apply set_read_callback set_write_callback set_close_callback set_error_callback
    set_read_event set_write_event set_close_event set_error_event
apply-Returns h enables = enable-Returns h
apply-Returns h (disables quit) = disable-Returns quit h
apply-Returns h (read_callback cb) = refresh-Returns _
apply-Returns h (write_callback cb) = refresh-Returns _
apply-Returns h (close_callback cb) = refresh-Returns _
apply-Returns h (error_callback cb) = refresh-Returns _
apply-Returns h (read_event on) = refresh-Returns _
apply-Returns h (write_event on) = refresh-Returns _
apply-Returns h (close_event on) = refresh-Returns _
apply-Returns h (error_event on) = refresh-Returns _

abbrev pub never_quits : List Call → Bool
never_quits [] = true
never_quits (c ∷ cs) = not (quits c) && never_quits cs

never_quits-cons :
    (c : Call) (cs : List Call)
    → never_quits (c ∷ cs) ≡ true
    → (quits c ≡ false) × (never_quits cs ≡ true)
never_quits-cons c cs h = by_call (quits c) (never_quits cs) h
  where
    by_call : (q n : Bool) → not q && n ≡ true → (q ≡ false) × (n ≡ true)
    by_call true n h = cc
    by_call false n h = (refl, h)

calls-Keeps :
    (h : IoHandler) (cs : List Call)
    → (k : IoHandler) × (calls h cs ≡ some k) × (never_quits cs ≡ true → InSync h → InSync k)
unfolding calls
calls-Keeps h [] = (h, refl, λ n s. s)
calls-Keeps h (c ∷ cs) =
    let (g, e) = apply-Returns h c in
    let (k, f, keeps) = calls-Keeps g cs in
    (
      k,
      rw (e, calls) f,
      λ n s.
          let (q, n') = never_quits-cons c cs n in
          let (g', e', t) = apply-Keeps h c q s in
          keeps n' (subst InSync (some-inj g' g (sym e' ∙ e)) t),
    )

-- What `disable` leaves when the loop has been asked to end, and `enable` after it: epoll keeps what it held,
-- and refuses the descriptor if it still holds it.
abbrev pub LeftBehind : IoHandler → Type 0
LeftBehind h =
    (g : IoHandler) × (g' : IoHandler) × (disable true h ≡ some g)
    × (g.status ≡ disabled)
    × (replay g.ctl_log ≡ some (wanted h))
    × (enable g ≡ some g')
    × (replay g'.ctl_log ≡ (if is_enabled h.status then none else some (some g'.events)))

InSync-LeftBehind : (h : IoHandler) → InSync h → LeftBehind h
unfolding disable enable update update_from update_in_loop replay clean_callbacks
InSync-LeftBehind h s = elim (Bool-cases (is_enabled h.status)) [
  | inl e ↦ (_, _, refl, refl, s, refl, rw (e, s) (rw e refl))
  | inr e ↦ (_, _, refl, refl, s, refl, rw (e, s) (rw e refl))
]

pub create-InSync : InSync create
unfolding create replay
create-InSync = refl

-- Whatever is called on a new handler, no check fails. As long as no `disable` comes when the loop has been asked
-- to end, epoll accepts every command, and it ends up holding the handler's events if the handler is enabled, and
-- nothing otherwise. A `disable` that comes then disables the handler and leaves in epoll what is there; and if
-- the handler was enabled, epoll refuses the command of an `enable` after that.
pub calls-InSync :
    (cs : List Call)
    → (h : IoHandler) × (calls create cs ≡ some h)
      × (never_quits cs ≡ true
          → (replay h.ctl_log ≡ some (if is_enabled h.status then some h.events else none))
            × LeftBehind h)
calls-InSync cs =
    let (h, e, keeps) = calls-Keeps create cs in
    (h, e, λ n. let s = keeps n create-InSync in (s, InSync-LeftBehind h s))

-- Setting an event never fails.
pub set_write_event_total :
    (on : Bool) (h : IoHandler) → (k : IoHandler) × (set_write_event on h ≡ some k)
unfolding set_write_event
set_write_event_total on h = by_status h.status refl
  where
    by_status : (st : Status) → h.status ≡ st → (k : IoHandler) × (set_write_event on h ≡ some k)
    by_status created e = rw e (_, refl)
    by_status disabled e = rw e (_, refl)
    by_status enabled e = rw e (_, refl)
