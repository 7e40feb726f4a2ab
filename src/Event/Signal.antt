-- ===== src/Event/Signal.antt =====
-- `evt_mtx_signal` on every path.
use wkc.Common.{◌+◌, ◌≤◌, pos, minus_one, ◌≡◌, ◌⊎◌, Bool, true, false, arith, ◌==◌, if◌then◌else◌}
use wkc.Posix.{Env, World, Exit, done}
use wkc.Posix.Ledger.{held, count, signalled}
use wkc.Event.{Evt, signal}

-- The event is set and the mutex given up; the condition was signalled if the event was not set.
pub record IsSignalled (w w' : World Evt) : Type 0 where
  pub set : w'.object.state ≡ 1
  pub given_up : held w'.log ≡ false
  pub woken :
      count signalled w'.log ≡ count signalled w.log + (if w.object.state == 0 then 1 else 0)

-- Nothing is changed, or the function left with the mutex.
pub record IsRefused (w w' : World Evt) : Type 0 where
  pub untouched : (held w'.log ≡ true) ⊎ ((w'.object ≡ w.object) × (held w'.log ≡ held w.log))

abbrev pub Outcome : World Evt → Exit (Unit {0}) × World Evt → Type 0
Outcome w (x, w') =
    ((x ≡ done (pos 0)) × IsSignalled w w') ⊎ ((x ≡ done minus_one) × IsRefused w w')

-- On an event whose state is 0 or 1, whatever the system answers, the signal returns 0 or -1. With
-- 0 the state is 1, the mutex is given up, and the condition was signalled once if the state was 0
-- and not at all if it was 1. With -1 the object and the mutex are as they were, or the function
-- left with the mutex.
pub signal-Outcome :
    (has_handle : Bool) (env : Env Evt) (w : World Evt)
    → w.object.state ≤ 1
    → Outcome w (signal has_handle env w)
unfolding signal
signal-Outcome has_handle env w h = ground arith
