-- ===== src/Wait/Refused.antt =====
-- The deadline that the system refuses. `pthread_cond_timedwait` answers EINVAL to a deadline with
-- a second or more of nanoseconds, at once and with the mutex kept, and the loops look for
-- ETIMEDOUT alone.
use wkc.Common.{
  ℕ, zero, suc, ◌+◌, ◌*◌, ◌%◌, ◌≤◌, ◌<◌, ℤ, pos, ◌≡◌, ◌≢◌, refl, Bool, true, false, ◌∷◌, arith,
  ◌==◌,
}
use wkc.Posix.{
  Log, cond_timedwait, condattr_getclock, clock_gettime, mutex_lock, Timespec, Env, World, stuck,
}
use wkc.Posix.Time.{deadline, billion, deadline_refused}
use wkc.Wait.{wait_until, wait_ready, wait, forever}

-- EINVAL of Linux
abbrev pub einval : ℤ
einval = pos 22

-- What the system documents of a deadline that it refuses.
pub record RefusesLate {S : Type 0} (env : Env S) : Type 0 where
  pub refuses :
      (log : Log) (tp : Timespec) → billion ≤ tp.nsec → env.answer log (cond_timedwait tp) ≡ einval
  pub keeps :
      (log : Log) (tp : Timespec) (s : S)
      → billion ≤ tp.nsec
      → env.resume ((cond_timedwait tp, einval) ∷ log) s ≡ s

-- The calls ahead of the loop succeed, with a clock whose nanoseconds and those of the wait make
-- up one second.
pub record ReachesLoop {S : Type 0} (env : Env S) (ms : ℕ) : Type 0 where
  pub has_clock : (log : Log) → env.answer log condattr_getclock ≡ pos 0
  pub has_time : (log : Log) → env.answer log clock_gettime ≡ pos 0
  pub has_mutex : (log : Log) → env.answer log mutex_lock ≡ pos 0
  pub below : (log : Log) → (env.now log).nsec < billion
  pub whole : (log : Log) → (env.now log).nsec + ms % 1000 * 1000000 ≡ billion

pub ne→==_false : (a b : ℕ) → a ≢ b → (a == b) ≡ false
ne→==_false a b h = ground arith

module _ {S : Type 0} (ready : S → Bool) (env : Env S) (late : RefusesLate env) where
  refused_loop :
      (tp : Timespec) (fuel : ℕ) (w : World S)
      → billion ≤ tp.nsec
      → ready w.object ≡ false
      → (wait_until ready tp fuel env w).0 ≡ stuck
  unfolding wait_until
  refused_loop tp zero w h e = refl
  refused_loop tp (suc fuel) w h e =
      rw (e, late.refuses w.log tp h)
        (refused_loop tp fuel
          (record w {
            log = (cond_timedwait tp, einval) ∷ w.log;
            object = env.resume ((cond_timedwait tp, einval) ∷ w.log) w.object;
          })
          h (rw (late.keeps w.log tp w.object h) e))

  -- If the system answers EINVAL, with the object left as it was, to every deadline that has a
  -- second or more of nanoseconds, and the calls ahead of the loop succeed, then a timed wait does
  -- not return, whatever the fuel, when the clock's nanoseconds and those of the wait make up one
  -- second exactly and the condition is not met at the start.
  pub wait_spins :
      (consume : S → S) (fuel ms : ℕ) (w : World S)
      → ms ≢ forever
      → ReachesLoop env ms
      → ready w.object ≡ false
      → (wait ready consume fuel true ms env w).0 ≡ stuck
  unfolding wait wait_ready
  wait_spins consume fuel ms w timed r e =
      rw (ne→==_false ms forever timed, r.has_clock, r.has_time, r.has_mutex, loop) refl
    where
      l2 : Log
      l2 = (clock_gettime, pos 0) ∷ (condattr_getclock, pos 0) ∷ w.log

      loop :
          (wait_until ready
            (deadline (env.now l2) ms)
            fuel
            env
            (record w { log = (mutex_lock, pos 0) ∷ l2 })).0
          ≡ stuck
      loop =
          refused_loop (deadline (env.now l2) ms) fuel _
            ((deadline_refused (env.now l2) ms (r.below l2)).1 (r.whole l2)) e
