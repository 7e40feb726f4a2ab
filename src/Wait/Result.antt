-- ===== src/Wait/Result.antt =====
-- What a wait returns, and what it takes.
use wkc.Common.{
  ℕ, pos, minus_one, ◌≡◌, refl, ◌⊎◌, inl, inr, Bool, true, false, arith, Bool-cases, ◌==◌,
}
use wkc.Posix.{
  mutex_unlock, Env, World, Exit, next, done, goto, stuck, ◌>>◌, M, proceed, modify, return,
}
use wkc.Posix.Macros.{chk_fun_re}
use wkc.Posix.Ledger.{held}
use wkc.Posix.Rules.{after_re}
use wkc.Wait.{wait_any, wait_ready, wait, forever}
use wkc.Wait.Loops.{wait_any_ends, UntilEnd, wait_until_ends}

module _ {S : Type 0} (ready : S → Bool) (consume : S → S) (env : Env S) where
  forever_ends : (fuel : ℕ) (w : World S) → UntilEnd ready env (wait_any ready fuel env w)
  forever_ends fuel w = elim (wait_any_ends ready env fuel w) [
    | inl met ↦ inl met
    | inr out_of_fuel ↦ inr (inr out_of_fuel)
  ]

  -- The mutex and the loop together end as the loop for a deadline does.
  wait_ready_ends :
      (fuel ms : ℕ) (w : World S) → UntilEnd ready env (wait_ready ready fuel ms env w)
  unfolding wait_ready
  wait_ready_ends fuel ms w = elim (Bool-cases (ms == forever)) [
    | inl always ↦ rw always (
        after_re (UntilEnd ready env) _ env _ _ _ (λ r z. forever_ends fuel _)
          (λ r z. inr (inl refl)))
    | inr timed ↦ rw timed (
        after_re (UntilEnd ready env) _ env _ _ _
          (λ r z.
            after_re (UntilEnd ready env) _ env _ _ _
              (λ s y.
                after_re (UntilEnd ready env) _ env _ _ _
                  (λ t x. wait_until_ends ready env _ fuel _) (λ t x. inr (inl refl)))
              (λ s y. inr (inl refl)))
          (λ r z. inr (inl refl)))
  ]

  -- With 0 the object had met the condition and was taken from, and the mutex is given up. With -1
  -- the object is as the loop left it, or the mutex could not be given up.
  abbrev pub Outcome : World S → Exit (Unit {0}) × World S → Type 0
  Outcome before (x, w') =
      ((x ≡ done (pos 0))
        × (ready before.object ≡ true)
        × (w'.object ≡ consume before.object)
        × (held w'.log ≡ false))
      ⊎ (((x ≡ done minus_one) × ((w'.object ≡ before.object) ⊎ (held w'.log ≡ held before.log)))
          ⊎ (x ≡ stuck))

  abbrev last_part : M S (Unit {0})
  last_part = do modify consume; chk_fun_re mutex_unlock minus_one; return (pos 0)

  after_loop :
      (x : Exit (Unit {0})) (w' : World S)
      → UntilEnd ready env (x, w')
      → Outcome w' (proceed (x, w') (λ (_ : Unit {0}). last_part) env)
  after_loop (next a) w' e =
      after_re (Outcome w') _ env _ _ _ (λ r z. inl (refl, met e, refl, ground arith))
        (λ r z. inr (inl (refl, inr (ground arith))))
    where
      met : UntilEnd ready env (next a, w') → ready w'.object ≡ true
      met (inl h) = h.1
      met (inr (inl h)) = cc h
      met (inr (inr h)) = cc h
  after_loop (done r) w' (inl h) = cc (h.0)
  after_loop (done r) w' (inr (inl h)) = inr (inl (h, inl refl))
  after_loop (done r) w' (inr (inr h)) = cc h
  after_loop (goto l) w' e = ground arith
  after_loop stuck w' e = inr (inr refl)

  pub wait-Outcome :
      (fuel ms : ℕ) (w : World S)
      → Outcome (wait_ready ready fuel ms env w).1 (wait ready consume fuel true ms env w)
  unfolding wait
  wait-Outcome fuel ms w =
      after_loop (wait_ready ready fuel ms env w).0 (wait_ready ready fuel ms env w).1
        (wait_ready_ends fuel ms w)
