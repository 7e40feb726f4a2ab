-- ===== src/Wait/Loops.antt =====
-- How the two wait loops end.
use wkc.Common.{
  ℕ, zero, suc, minus_one, eqb_ℤ, ◌≡◌, refl, ◌⊎◌, inl, inr, Bool, true, arith, Bool-cases,
}
use wkc.Posix.{cond_wait, cond_timedwait, Timespec, Env, World, Exit, next, done, stuck, wait_call}
use wkc.Wait.{wait_any, wait_until, give_up, etimedout}

module _ {S : Type 0} (ready : S → Bool) (env : Env S) where
  -- `wait_any` ends only by its test, or not at all.
  abbrev pub AnyEnd : Exit (Unit {0}) × World S → Type 0
  AnyEnd (x, w') = ((x ≡ next tt) × (ready w'.object ≡ true)) ⊎ (x ≡ stuck)

  pub wait_any_ends : (fuel : ℕ) (w : World S) → AnyEnd (wait_any ready fuel env w)
  unfolding wait_any
  wait_any_ends zero w = inr refl
  wait_any_ends (suc fuel) w = elim (Bool-cases (ready w.object)) [
    | inl met ↦ rw met (inl (refl, met))
    | inr unmet ↦ rw unmet (wait_any_ends fuel (wait_call cond_wait env w).1)
  ]

  -- `wait_until` ends by its test, or with -1, or not at all.
  abbrev pub UntilEnd : Exit (Unit {0}) × World S → Type 0
  UntilEnd (x, w') =
      ((x ≡ next tt) × (ready w'.object ≡ true)) ⊎ ((x ≡ done minus_one) ⊎ (x ≡ stuck))

  give_up_ends : (w : World S) → (give_up ready env w).0 ≡ done minus_one
  unfolding give_up
  give_up_ends w = ground arith

  pub wait_until_ends :
      (tp : Timespec) (fuel : ℕ) (w : World S) → UntilEnd (wait_until ready tp fuel env w)
  unfolding wait_until
  wait_until_ends tp zero w = inr (inr refl)
  wait_until_ends tp (suc fuel) w = elim (Bool-cases (ready w.object)) [
    | inl met ↦ rw met (inl (refl, met))
    | inr unmet ↦ elim (Bool-cases (eqb_ℤ (env.answer w.log (cond_timedwait tp)) etimedout)) [
      | inl late ↦
          rw (unmet, late) (inr (inl (give_up_ends (wait_call (cond_timedwait tp) env w).1)))
      | inr early ↦
          rw (unmet, early) (wait_until_ends tp fuel (wait_call (cond_timedwait tp) env w).1)
    ]
  ]
