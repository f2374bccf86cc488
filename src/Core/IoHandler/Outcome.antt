-- ===== src/Core/IoHandler/Outcome.antt =====
-- src/core/IOHandler.cpp: no check fails in these operations, and what they leave.
use hohnor.Prelude.{ℕ, ◌≡◌, refl, Bool, true, false, Option, none, some}
use hohnor.Core.IoHandler.{
  IoHandler, Status, created, enabled, disabled, is_some, is_enabled, update_from, enable, disable,
  clean_callbacks, refresh, set_read_callback,
}

-- The IO handler listens, and `cb` is its read callback.
abbrev pub Listens : Option IoHandler → Option ℕ → Type 0
Listens o cb =
    (h : IoHandler) × (o ≡ some h)
    × (is_enabled h.status ≡ true)
    × (h.events.read ≡ is_some cb)
    × (h.read_callback ≡ cb)

-- No IO handler, or one that is not enabled.
abbrev pub IsNotEnabled : Option IoHandler → Type 0
IsNotEnabled none = Unit {0}
IsNotEnabled (some h) = is_enabled h.status ≡ false

enabled_by :
    (st : Status) (h : IoHandler)
    → h.status ≡ st
    → (h' : IoHandler) × (update_from h st enabled ≡ some h')
      × (h'.status ≡ enabled)
      × (h'.events ≡ h.events)
      × (h'.read_callback ≡ h.read_callback)
unfolding update_from
enabled_by created h e = rw e (_, refl, refl, refl, refl)
enabled_by enabled h e = rw e (_, refl, refl, refl, refl)
enabled_by disabled h e = rw e (_, refl, refl, refl, refl)

pub enable_lem :
    (h : IoHandler) {cb : Option ℕ}
    → h.events.read ≡ is_some cb
    → h.read_callback ≡ cb
    → (h' : IoHandler) × (enable h ≡ some h') × Listens (some h') cb
unfolding enable
enable_lem h e c =
    let (h', r, s, f, k) = enabled_by h.status h refl in
    (h', r, (h', refl, rw s refl, rw (f, e) refl, rw (k, c) refl))

refreshed_by :
    (st : Status) (h : IoHandler)
    → h.status ≡ st
    → (h' : IoHandler) × (refresh h ≡ some h')
      × (h'.status ≡ h.status)
      × (h'.events ≡ h.events)
      × (h'.read_callback ≡ h.read_callback)
unfolding refresh
refreshed_by created h e = rw e (_, refl, refl, refl, refl)
refreshed_by enabled h e = rw e (_, refl, refl, refl, refl)
refreshed_by disabled h e = rw e (_, refl, refl, refl, refl)

pub set_read_callback_lem :
    (h : IoHandler) (cb : Option ℕ)
    → (h' : IoHandler) × (set_read_callback cb h ≡ some h')
      × (h'.status ≡ h.status)
      × (h'.events.read ≡ is_some cb)
      × (h'.read_callback ≡ cb)
unfolding set_read_callback
set_read_callback_lem h cb =
    let (h', r, s, f, k) = refreshed_by h.status _ refl in (h', r, s, rw f refl, k)

disabled_by :
    (st : Status) (h : IoHandler)
    → h.status ≡ st
    → (h' : IoHandler) × (update_from h st disabled ≡ some h') × (is_enabled h'.status ≡ false)
unfolding update_from
disabled_by created h e = (_, refl, refl)
disabled_by enabled h e = rw e (_, refl, refl)
disabled_by disabled h e = (_, refl, rw e refl)

pub disable_lem :
    (quit : Bool) (h : IoHandler)
    → (h' : IoHandler) × (disable quit h ≡ some h') × (is_enabled h'.status ≡ false)
unfolding disable
disable_lem true h = (_, refl, refl)
disable_lem false h = disabled_by h.status (clean_callbacks h) refl
