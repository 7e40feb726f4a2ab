-- ===== src/Lifecycle/Destroy.antt =====
-- What the destroy functions leave behind, on every path.
use wkc.Common.{suc, pos, minus_one, ◌≡◌, refl, ◌⊎◌, inl, inr, Bool, true, false, arith}
use wkc.Posix.{Env, World, Exit, done}
use wkc.Posix.Ledger.{held, count, freed, mutex_gone}
use wkc.Posix.Rules.{after_re}
use wkc.Lifecycle.{destroy}

module _ {S : Type 0} where
  pub record IsDestroyed (w w' : World S) : Type 0 where
    pub block : count freed w'.log ≡ suc (count freed w.log)
    pub mutex : count mutex_gone w'.log ≡ suc (count mutex_gone w.log)
    pub given_up : held w'.log ≡ false

  abbrev pub Outcome : World S → Exit (Unit {0}) × World S → Type 0
  Outcome w (x, w') =
      ((x ≡ done (pos 0)) × IsDestroyed w w')
      ⊎ ((x ≡ done minus_one) × (count freed w'.log ≡ count freed w.log))

  -- Whatever the system answers, `destroy` returns 0 or -1. With 0 one block is freed and one
  -- mutex destroyed, after it was given up; with -1 no block is freed.
  pub destroy-Outcome :
      (has_handle : Bool) (env : Env S) (w : World S) → Outcome w (destroy has_handle env w)
  unfolding destroy
  destroy-Outcome false env w = inr (refl, refl)
  destroy-Outcome true env w =
      after_re (Outcome w) _ env _ _ _
        (λ r y.
          after_re (Outcome w) _ env _ _ _
            (λ s x.
              after_re (Outcome w) _ env _ _ _
                (λ t v.
                  after_re (Outcome w) _ env _ _ _
                    (λ a i.
                      after_re (Outcome w) _ env _ _ _ (λ b j. inl (refl, ground arith))
                        (λ b j. inr (refl, refl)))
                    (λ a i. inr (refl, refl)))
                (λ t v. inr (refl, refl)))
            (λ s x. inr (refl, refl)))
        (λ r y. inr (refl, refl))
