-- ===== src/Wait/Unlocked.antt =====
-- A wait that fails does not keep the mutex.
use wkc.Common.{
  ℕ, zero, suc, ℤ, pos, minus_one, eqb_ℤ, is_zero, ◌≡◌, refl, ◌⊎◌, inl, inr, Bool, true, false, ◌∷◌,
  Bool-cases, ◌==◌,
}
use wkc.Posix.{
  Log, mutex_unlock, cond_wait, cond_timedwait, Timespec, Env, World, Exit, next, done, goto, stuck,
  ◌>>◌, M, proceed, modify, return, wait_call,
}
use wkc.Posix.Macros.{chk_fun_re}
use wkc.Posix.Ledger.{held}
use wkc.Posix.Rules.{after_re}
use wkc.Wait.{wait_any, wait_until, give_up, wait_ready, wait, forever, etimedout}

-- The caller does not have the mutex, or its last call was an unlock that was refused.
abbrev pub GivesUp : Log → Type 0
GivesUp log =
    (held log ≡ false)
    ⊎ ((r : ℤ) × (before : Log) × (log ≡ (mutex_unlock, r) ∷ before) × (is_zero r ≡ false))

module _ {S : Type 0} (ready : S → Bool) (consume : S → S) (env : Env S) where
  abbrev Unlocked : Exit (Unit {0}) × World S → Type 0
  Unlocked (x, w') = x ≡ done minus_one → GivesUp w'.log

  give_up-Unlocked : (w : World S) → Unlocked (give_up ready env w)
  unfolding give_up
  give_up-Unlocked w =
      after_re Unlocked _ env _ _ _ (λ r z e. inl (rw z refl)) (λ r z e. inr (r, w.log, refl, z))

  wait_any-Unlocked : (fuel : ℕ) (w : World S) → Unlocked (wait_any ready fuel env w)
  unfolding wait_any
  wait_any-Unlocked zero w = λ e. cc e
  wait_any-Unlocked (suc fuel) w = elim (Bool-cases (ready w.object)) [
    | inl met ↦ rw met (λ e. cc e)
    | inr unmet ↦ rw unmet (wait_any-Unlocked fuel (wait_call cond_wait env w).1)
  ]

  wait_until-Unlocked :
      (tp : Timespec) (fuel : ℕ) (w : World S) → Unlocked (wait_until ready tp fuel env w)
  unfolding wait_until
  wait_until-Unlocked tp zero w = λ e. cc e
  wait_until-Unlocked tp (suc fuel) w = elim (Bool-cases (ready w.object)) [
    | inl met ↦ rw met (λ e. cc e)
    | inr unmet ↦ elim (Bool-cases (eqb_ℤ (env.answer w.log (cond_timedwait tp)) etimedout)) [
      | inl late ↦ rw (unmet, late) (give_up-Unlocked (wait_call (cond_timedwait tp) env w).1)
      | inr early ↦
          rw (unmet, early) (wait_until-Unlocked tp fuel (wait_call (cond_timedwait tp) env w).1)
    ]
  ]

  wait_ready-Unlocked :
      (fuel ms : ℕ) (w : World S) → held w.log ≡ false → Unlocked (wait_ready ready fuel ms env w)
  unfolding wait_ready
  wait_ready-Unlocked fuel ms w h = elim (Bool-cases (ms == forever)) [
    | inl always ↦
        rw always
          (after_re Unlocked _ env _ _ _ (λ r z. wait_any-Unlocked fuel _) (λ r z e. inl (rw z h)))
    | inr timed ↦ rw timed (
        after_re Unlocked _ env _ _ _
          (λ r z.
            after_re Unlocked _ env _ _ _
              (λ s y.
                after_re Unlocked _ env _ _ _ (λ t x. wait_until-Unlocked _ fuel _)
                  (λ t x e. inl (rw x h)))
              (λ s y e. inl h))
          (λ r z e. inl h))
  ]

  abbrev last_part : M S (Unit {0})
  last_part = do modify consume; chk_fun_re mutex_unlock minus_one; return (pos 0)

  last_part-Unlocked :
      (x : Exit (Unit {0})) (w' : World S)
      → Unlocked (x, w')
      → Unlocked (proceed (x, w') (λ (_ : Unit {0}). last_part) env)
  last_part-Unlocked (next a) w' h =
      after_re Unlocked _ env _ _ _ (λ r z e. cc e) (λ r z e. inr (r, w'.log, refl, z))
  last_part-Unlocked (done r) w' h = h
  last_part-Unlocked (goto l) w' h = λ e. cc e
  last_part-Unlocked stuck w' h = λ e. cc e

  -- A wait whose caller does not have the mutex, and that returns -1.
  pub wait-GivesUp :
      (fuel ms : ℕ) (w : World S)
      → held w.log ≡ false
      → (wait ready consume fuel true ms env w).0 ≡ done minus_one
      → GivesUp (wait ready consume fuel true ms env w).1.log
  unfolding wait
  wait-GivesUp fuel ms w h =
      last_part-Unlocked (wait_ready ready fuel ms env w).0 (wait_ready ready fuel ms env w).1
        (wait_ready-Unlocked fuel ms w h)
