-- ===== src/Scenarios/Shared.antt =====
-- Deadlines, the wait loops, and the functions that create and destroy.
use wkc.Common.{zero, suc, ◌<◌, pos, [], ◌∷◌, ℕ, ◌+◌, ◌≡◌, ◌≢◌, refl, true, false, arith}
use wkc.Posix.{Log, mutex_lock, Timespec, cond_wait, World, stuck, done, mutex_unlock}
use wkc.Posix.Quiet.{quiet, timed, changing, start}
use wkc.Lifecycle.{create}
use wkc.Lifecycle.Create
use wkc.Lifecycle.Create.{create-Outcome}
use wkc.Wait.{wait, after_waits, forever}
use wkc.Wait.Returns
use wkc.Wait.Returns.{wait-returns}
use wkc.Wait.Refused.{einval, RefusesLate, ReachesLoop, wait_spins}
use wkc.Event.{Evt, is_set, reset}

abbrev late_second : Timespec
late_second = record { sec = 5; nsec = 999_000_000 }

create-Outcome_example :
    Create.Outcome 7 (start 1) (create 0 (λ s. s + 7) true true false quiet (start 1))
create-Outcome_example = create-Outcome 0 (λ s. s + 7) true true false quiet (start 1)

abbrev unset : World Evt
unset = start (record { state = 0 })

abbrev set_one : Evt → Evt
set_one e = record { state = 1 }

abbrev loop_log : Log
loop_log = (mutex_lock, pos 0) ∷ []

abbrev at_loop : World Evt
at_loop = record unset { log = loop_log }

-- The event is not set before the first wait, which lets another thread set it.
unset_before :
    (k : ℕ) → k < 1 → is_set (after_waits cond_wait k (changing set_one) at_loop).object ≡ false
unfolding after_waits
unset_before zero h = refl
unset_before (suc k) h = absurd (omega arith)

set_after : is_set (after_waits cond_wait 1 (changing set_one) at_loop).object ≡ true
unfolding after_waits
set_after = refl

unlocks_after :
    (changing set_one).answer (after_waits cond_wait 1 (changing set_one) at_loop).log mutex_unlock
    ≡ pos 0
unfolding after_waits
unlocks_after = refl

changing-ReachesLoop : Returns.ReachesLoop {S = Evt} (changing set_one)
changing-ReachesLoop = record { has_mutex = λ log. refl }

wait-returns_example :
    let reached = after_waits cond_wait 1 (changing set_one) at_loop in
    wait is_set reset 2 true forever (changing set_one) unset ≡ (
      done (pos 0),
      record reached { object = reset reached.object; log = (mutex_unlock, pos 0) ∷ reached.log },
    )
wait-returns_example =
    wait-returns is_set reset (changing set_one) 1 2 unset changing-ReachesLoop unlocks_after
      (omega arith) unset_before set_after

one-ne-forever : ◌≢◌ {A = ℕ} 1 forever
one-ne-forever h = omega arith

refuses : RefusesLate {S = Evt} (timed einval)
refuses = record { refuses = λ log tp h. refl; keeps = λ log tp s h. refl }

reaches : ReachesLoop {S = Evt} (timed einval) 1
reaches = record {
  has_clock = λ log. refl;
  has_time = λ log. refl;
  has_mutex = λ log. refl;
  below = λ log. omega arith;
  whole = λ log. refl;
}

wait_spins_example : (wait is_set reset 50 true 1 (timed einval) unset).0 ≡ stuck
wait_spins_example =
    wait_spins is_set (timed einval) refuses reset 50 1 unset one-ne-forever reaches refl
