-- ===== src/Event.antt =====
-- project/ipc/evt.c, the event `evt_t`: one waiter is let through for each signal that finds the
-- event unset. The object is as a function finds it once it has the mutex.
pub mod Crowd
pub mod Lost
pub mod Signal
pub mod Taken
use wkc.Common.{ℕ, pos, minus_one, Bool, not, ◌==◌, if◌then◌else◌}
use wkc.Posix.{mutex_lock, mutex_unlock, cond_signal, M, ◌>>=◌, ◌>>◌, pure, return, gets, modify}
use wkc.Posix.Macros.{chk_arg_re, chk_fun_re}
use wkc.Lifecycle
use wkc.Wait

-- `evt_t`, without the fields that only pthread reads
pub record Evt : Type 0 where
  pub state : ℕ

abbrev pub zeroed : Evt
zeroed = record { state = 0 }

-- evt_mtx_create(pHandle, s32IsShared, s32IsTimeRelative)
abbrev pub create : Bool → Bool → Bool → M Evt (Unit {0})
create = Lifecycle.create zeroed (λ e. e)

-- evt_mtx_destroy(handle)
abbrev pub destroy : Bool → M Evt (Unit {0})
destroy = Lifecycle.destroy

-- evt_mtx_signal(handle)
pub signal : Bool → M Evt (Unit {0})
signal has_handle = do
  chk_arg_re (not has_handle) minus_one
  chk_fun_re mutex_lock minus_one
  state ← gets (λ (e : Evt). e.state)
  (if state == 0
      then (do chk_fun_re cond_signal minus_one; modify (λ e. record e { state = 1 }))
      else pure tt)
  chk_fun_re mutex_unlock minus_one
  return (pos 0)

-- evt_mtx_wait(handle, ulMilsecond): until the state is 1, which is then taken back to 0
abbrev pub is_set : Evt → Bool
is_set e = e.state == 1

abbrev pub reset : Evt → Evt
reset e = record e { state = 0 }

pub wait : ℕ → Bool → ℕ → M Evt (Unit {0})
wait = Wait.wait is_set reset
