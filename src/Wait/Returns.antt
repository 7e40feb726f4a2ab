-- ===== src/Wait/Returns.antt =====
-- With enough fuel a wait without a deadline returns.
use wkc.Common.{ℕ, ◌<◌, pos, ◌≡◌, Bool, true, false, zero, suc, refl, arith, ◌∷◌}
use wkc.Posix.{Log, cond_wait, mutex_lock, mutex_unlock, Env, World, wait_call, next, done}
use wkc.Wait.{wait_any, wait_ready, wait, forever, after_waits}

-- The call ahead of the loop succeeds.
pub record ReachesLoop {S : Type 0} (env : Env S) : Type 0 where
  pub has_mutex : (log : Log) → env.answer log mutex_lock ≡ pos 0

module _ {S : Type 0} (ready : S → Bool) (consume : S → S) (env : Env S) where
  -- the world before an untimed loop
  abbrev pub at_loop : World S → World S
  at_loop w = record w { log = (mutex_lock, pos 0) ∷ w.log }

  -- The loop without a deadline ends after the first wait that leaves the condition met.
  wait_any-after :
      (n fuel : ℕ) (w : World S)
      → n < fuel
      → ((k : ℕ) → k < n → ready (after_waits cond_wait k env w).object ≡ false)
      → ready (after_waits cond_wait n env w).object ≡ true
      → wait_any ready fuel env w ≡ (next tt, after_waits cond_wait n env w)
  unfolding wait_any after_waits
  wait_any-after n zero w h unmet met = absurd (omega arith)
  wait_any-after zero (suc fuel) w h unmet met = rw met refl
  wait_any-after (suc n) (suc fuel) w h unmet met = rw (unmet 0 (omega arith)) (
      wait_any-after n fuel (wait_call cond_wait env w).1 (omega arith)
        (λ k below. unmet (suc k) (omega (arith, below))) met)

  -- Where an untimed wait gets the mutex, the condition is not met after fewer than `n` waits on the
  -- condition variable and is after `n` of them, and the unlock succeeds, the wait returns 0 with
  -- any fuel above `n`. It has waited exactly `n` times between its lock and its unlock, and taken
  -- from the object that the last wait left.
  pub wait-returns :
      (n fuel : ℕ) (w : World S)
      → ReachesLoop env
      → env.answer (after_waits cond_wait n env (at_loop w)).log mutex_unlock ≡ pos 0
      → n < fuel
      → ((k : ℕ) → k < n → ready (after_waits cond_wait k env (at_loop w)).object ≡ false)
      → ready (after_waits cond_wait n env (at_loop w)).object ≡ true
      → let reached = after_waits cond_wait n env (at_loop w) in
        wait ready consume fuel true forever env w ≡ (
          done (pos 0),
          record reached {
            object = consume reached.object;
            log = (mutex_unlock, pos 0) ∷ reached.log;
          },
        )
  unfolding wait wait_ready
  wait-returns n fuel w r up h unmet met =
      rw (r.has_mutex, wait_any-after n fuel (at_loop w) h unmet met, up) refl
