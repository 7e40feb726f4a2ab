-- ===== src/Event/Taken.antt =====
-- `evt_mtx_wait`: what it takes, and a signal taken back by a wait.
use wkc.Common.{ℕ, suc, pos, minus_one, ◌≡◌, refl, ◌⊎◌, inl, inr, true, false, ap, arith, ◌==◌}
use wkc.Posix.{Log, cond_signal, mutex_lock, mutex_unlock, Env, World, Exit, done, stuck}
use wkc.Posix.Ledger.{held}
use wkc.Wait
use wkc.Wait.{wait_ready, wait_any, forever}
use wkc.Wait.Result.{wait-Outcome}
use wkc.Wait.Unlocked.{GivesUp, wait-GivesUp}
use wkc.Event.{Evt, signal, is_set, reset, wait}

-- What a wait with a handle may end with. `reached` is the event when the loop ended.
abbrev pub TakeOutcome : World Evt → Exit (Unit {0}) × World Evt → Type 0
TakeOutcome reached (x, w') =
    ((x ≡ done (pos 0))
      × (reached.object.state ≡ 1)
      × (w'.object.state ≡ 0)
      × (held w'.log ≡ false))
    ⊎ (((x ≡ done minus_one)
          × ((w'.object ≡ reached.object) ⊎ (held w'.log ≡ held reached.log))
          × GivesUp w'.log)
        ⊎ (x ≡ stuck))

set-is_one : (n : ℕ) → (n == 1) ≡ true → n ≡ 1
set-is_one n h = ground (arith, h)

pub event_wait-TakeOutcome :
    (fuel ms : ℕ) (env : Env Evt) (w : World Evt)
    → held w.log ≡ false
    → TakeOutcome (wait_ready is_set fuel ms env w).1 (wait fuel true ms env w)
unfolding wait
event_wait-TakeOutcome fuel ms env w free_mutex = elim (wait-Outcome is_set reset env fuel ms w) [
  | inl (returned, set, taken, up) ↦
      inl (returned, set-is_one _ set, ap (λ (e : Evt). e.state) taken, up)
  | inr (inl (failed, left)) ↦
      inr (inl (failed, left, wait-GivesUp is_set reset env fuel ms w free_mutex failed))
  | inr (inr out_of_fuel) ↦ inr (inr out_of_fuel)
]

-- The calls succeed that a signal and an untimed wait make.
pub record IsSmooth (env : Env Evt) : Type 0 where
  pub lock : (log : Log) → env.answer log mutex_lock ≡ pos 0
  pub unlock : (log : Log) → env.answer log mutex_unlock ≡ pos 0
  pub wake : (log : Log) → env.answer log cond_signal ≡ pos 0

module _ (env : Env Evt) (smooth : IsSmooth env) where
  signal_unset :
      (w : World Evt)
      → w.object.state ≡ 0
      → ((signal true env w).0 ≡ done (pos 0)) × ((signal true env w).1.object.state ≡ 1)
  unfolding signal
  signal_unset w unset = rw (smooth.lock, unset, smooth.wake, smooth.unlock) (refl, refl)

  signal_set :
      (w : World Evt)
      → w.object.state ≡ 1
      → ((signal true env w).0 ≡ done (pos 0)) × ((signal true env w).1.object.state ≡ 1)
  unfolding signal
  signal_set w set = rw (smooth.lock, set, smooth.unlock) (refl, refl)

  wait_set :
      (fuel : ℕ) (w : World Evt)
      → w.object.state ≡ 1
      → ((wait (suc fuel) true forever env w).0 ≡ done (pos 0))
        × ((wait (suc fuel) true forever env w).1.object.state ≡ 0)
  unfolding wait Wait.wait wait_ready wait_any
  wait_set fuel w set = rw (smooth.lock, set, smooth.unlock) (refl, refl)

  -- Where every call succeeds, signals on an unset event do not add up: after a first and a second
  -- signal the state is 1, both having returned 0, and one wait, which returns 0, takes it to 0.
  pub wait-signal :
      (fuel : ℕ) (w : World Evt)
      → w.object.state ≡ 0
      → ((signal true env w).0 ≡ done (pos 0))
        × ((signal true env (signal true env w).1).0 ≡ done (pos 0))
        × ((signal true env (signal true env w).1).1.object.state ≡ 1)
        × ((wait (suc fuel) true forever env (signal true env (signal true env w).1).1).0
            ≡ done (pos 0))
        × ((wait
              (suc fuel)
              true
              forever
              env
              (signal true env (signal true env w).1).1).1.object.state
            ≡ 0)
  wait-signal fuel w unset =
      let (first, once) = signal_unset w unset in
      let (second, twice) = signal_set (signal true env w).1 once in
      let (through, taken) = wait_set fuel (signal true env (signal true env w).1).1 twice in
      (first, second, twice, through, taken)
