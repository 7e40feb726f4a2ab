-- ===== src/Wait.antt =====
-- The waits of evt.c and wm_sem.c: `evt_mtx_wait` and `wm_sem_wait` are one text but for the
-- condition of the loop and for what is taken after it. A loop takes fuel, one unit for each test
-- of its condition.
pub mod Crowd
pub mod Loops
pub mod Refused
pub mod Result
pub mod Returns
pub mod Unlocked
use wkc.Common.{ℕ, zero, suc, ◌-◌, ◌^◌, ℤ, pos, minus_one, eqb_ℤ, Bool, not, ◌==◌, if◌then◌else◌}
use wkc.Posix.{
  Call, mutex_lock, mutex_unlock, cond_wait, cond_timedwait, condattr_getclock, clock_gettime,
  Timespec, Env, World, M, ◌>>=◌, ◌>>◌, pure, return, diverge, gets, modify, wait_call, time_now,
}
use wkc.Posix.Macros.{chk_arg_re, chk_fun_re}
use wkc.Posix.Time.{deadline}

-- (unsigned long)-1
abbrev pub forever : ℕ
forever = 2 ^ 64 - 1

-- ETIMEDOUT of Linux
abbrev pub etimedout : ℤ
etimedout = pos 110

module _ {S : Type 0} (ready : S → Bool) where
  -- while (!ready) pthread_cond_wait
  unfoldable pub wait_any : ℕ → M S (Unit {0})
  wait_any zero = diverge
  wait_any (suc fuel) =
      let rest = wait_any fuel in
      do found ← gets ready; (if found then pure tt else (do rc ← wait_call cond_wait; rest))

  -- at the deadline the function is left with -1
  pub give_up : M S (Unit {0})
  give_up = do chk_fun_re mutex_unlock minus_one; return minus_one

  -- while (!ready) pthread_cond_timedwait
  unfoldable pub wait_until : Timespec → ℕ → M S (Unit {0})
  unfolding give_up
  wait_until tp zero = diverge
  wait_until tp (suc fuel) =
      let rest = wait_until tp fuel in
      do
        found ← gets ready
        (if found then pure tt else (do
          rc ← wait_call (cond_timedwait tp)
          (if eqb_ℤ rc etimedout then give_up else rest)))

  -- the mutex, and then the loop
  unfoldable pub wait_ready : ℕ → ℕ → M S (Unit {0})
  wait_ready fuel ms =
      if ms == forever then (do chk_fun_re mutex_lock minus_one; wait_any fuel) else (do
        chk_fun_re condattr_getclock minus_one
        chk_fun_re clock_gettime minus_one
        tp ← time_now
        chk_fun_re mutex_lock minus_one
        wait_until (deadline tp ms) fuel)

  unfoldable pub wait : (S → S) → ℕ → Bool → ℕ → M S (Unit {0})
  wait consume fuel has_handle ms = do
    chk_arg_re (not has_handle) minus_one
    wait_ready fuel ms
    modify consume
    chk_fun_re mutex_unlock minus_one
    return (pos 0)

module _ {S : Type 0} where
  -- The world after `n` waits in a row, each by the call `c`.
  unfoldable pub after_waits : Call → ℕ → Env S → World S → World S
  after_waits c zero env w = w
  after_waits c (suc n) env w = after_waits c n env (wait_call c env w).1
