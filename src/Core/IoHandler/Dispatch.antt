-- ===== src/Core/IoHandler/Dispatch.antt =====
-- `IOHandler::run` of src/core/IOHandler.cpp: a callback that disables its handler is the last that an event
-- calls.
use hohnor.Prelude.{
  ℕ, ◌≡◌, refl, sym, ◌∙◌, subst, some-inj, Bool, true, false, not, ◌&&◌, ◌||◌, Bool-cases, inl, inr,
  List, [], ◌∷◌, ◌++◌, Option, none, some,
}
use hohnor.Core.IoHandler.{
  IoHandler, Status, created, enabled, disabled, is_enabled, clean_callbacks, update_from, update,
  disable, called, run,
}

-- No callback is left, and the handler is not enabled.
record IsClean (h : IoHandler) : Type 0 where
  read : h.read_callback ≡ none
  write : h.write_callback ≡ none
  close : h.close_callback ≡ none
  error : h.error_callback ≡ none
  status : is_enabled h.status ≡ false

disabled_by :
    (st : Status) (h : IoHandler)
    → h.status ≡ st
    → (g : IoHandler) × (update_from (clean_callbacks h) st disabled ≡ some g) × IsClean g
unfolding update_from clean_callbacks
disabled_by created h e =
    (_, refl, record { read = refl; write = refl; close = refl; error = refl; status = refl })
disabled_by enabled h e =
    rw e (_, refl, record { read = refl; write = refl; close = refl; error = refl; status = refl })
disabled_by disabled h e =
    (_, refl, record { read = refl; write = refl; close = refl; error = refl; status = rw e refl })

disable-IsClean : (quit : Bool) (h g : IoHandler) → disable quit h ≡ some g → IsClean g
unfolding disable update clean_callbacks
disable-IsClean true h g e =
    subst IsClean (some-inj _ g e)
      (record { read = refl; write = refl; close = refl; error = refl; status = refl })
disable-IsClean false h g e =
    let (g', e', c) = disabled_by h.status h refl in subst IsClean (some-inj g' g (sym e' ∙ e)) c

cons-head : {j k : ℕ} {xs ys : List ℕ} → j ∷ xs ≡ k ∷ ys → (j ≡ k) × (xs ≡ ys)
cons-head e = (cc, cc)

module _ (exec : ℕ → IoHandler → IoHandler) (k : ℕ)
    (disables : (g : IoHandler)
      → (quit : Bool) × (h : IoHandler) × (disable quit h ≡ some (exec k g))) where
  -- If `k` is in the log, which has the latest first, it is the latest, and the handler is clean.
  abbrev IsLast : List ℕ × IoHandler → Type 0
  IsLast (log, g) = (newer older : List ℕ) → log ≡ newer ++ k ∷ older → (newer ≡ []) × IsClean g

  called-IsLast :
      (due : Bool) (cb : Option ℕ) (log : List ℕ) (g : IoHandler)
      → (IsClean g → cb ≡ none)
      → IsLast (log, g)
      → IsLast (called exec due cb (log, g))
  called-IsLast due none log g c v = v
  called-IsLast false (some j) log g c v = v
  called-IsLast true (some j) log g c v = by_place
    where
      by_place :
          (newer older : List ℕ) → j ∷ log ≡ newer ++ k ∷ older → (newer ≡ []) × IsClean (exec j g)
      by_place [] older e =
          let (quit, h, d) = disables g in
          (
            refl,
            subst (λ i. IsClean (exec i g)) (sym (cons-head e).0)
                (disable-IsClean quit h (exec k g) d),
          )
      by_place (n ∷ ns) older e = cc (c (v ns older (cons-head e).1).1)

  -- Whatever the callbacks do to the handler, where `k` is one that ends by disabling it, with the loop asked to
  -- end or not: if `run` calls `k`, no callback is called after it, and the handler is left not enabled.
  pub run_stops :
      (h : IoHandler) (newer older : List ℕ)
      → (run exec h).0 ≡ newer ++ k ∷ older
      → (newer ≡ []) × (is_enabled (run exec h).1.status ≡ false)
  unfolding run
  run_stops h newer older e = elim (Bool-cases (is_enabled h.status)) [
    | inl y ↦
        let r = h.revents in
        let a = called exec (r.hup && not r.in_) h.close_callback ([], h) in
        let b = called exec a.1.revents.err a.1.error_callback a in
        let c =
          called exec (b.1.revents.in_ || (b.1.revents.pri || b.1.revents.rdhup)) b.1.read_callback
            b in
        let v : IsLast ([], h) = none_yet in
        let va : IsLast a =
          called-IsLast (r.hup && not r.in_) h.close_callback [] h (λ x. x.close) v in
        let vb : IsLast b =
          called-IsLast a.1.revents.err a.1.error_callback a.0 a.1 (λ x. x.error) va in
        let vc : IsLast c =
          called-IsLast (b.1.revents.in_ || (b.1.revents.pri || b.1.revents.rdhup))
            b.1.read_callback b.0 b.1 (λ x. x.read) vb in
        let (n, z) =
          called-IsLast c.1.revents.out c.1.write_callback c.0 c.1 (λ x. x.write) vc newer older
            (rw y at e) in
        (n, rw y z.status)
    | inr n ↦ absurd (nothing newer older (rw n at e))
  ]
    where
      nothing : (newer older : List ℕ) → [] ≡ newer ++ k ∷ older → ⊥
      nothing [] older e = cc e
      nothing (x ∷ xs) older e = cc e

      none_yet : (newer older : List ℕ) → [] ≡ newer ++ k ∷ older → (newer ≡ []) × IsClean h
      none_yet newer older e = absurd (nothing newer older e)
