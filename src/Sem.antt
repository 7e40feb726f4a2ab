-- ===== src/Sem.antt =====
-- project/ipc/wm_sem.c, a counting semaphore. The counter is an `int`, which wraps as the compilers
-- that the program is built with let it wrap. The object is as a function finds it once it has the
-- mutex.
pub mod Crowd
pub mod Post
pub mod Stranded
pub mod Taken
use wkc.Common.{
  ℕ, zero, suc, ◌-◌, ◌%◌, ◌^◌, ℤ, pos, negsuc, minus_one, is_neg, is_zero, ◌+ℤ◌, ◌-ℤ◌, Bool, true,
  false, not, ◌||◌, some, ltb, if◌then◌else◌,
}
use wkc.Posix.{
  mutex_lock, mutex_unlock, cond_signal, cond_broadcast, Call, M, ◌>>=◌, ◌>>◌, pure, return, gets,
  modify, set_out,
}
use wkc.Posix.Macros.{chk_arg_re, chk_fun_re}
use wkc.Lifecycle
use wkc.Wait

-- `wm_sem_t`, without the fields that only pthread reads
pub record Sem : Type 0 where
  pub cnt : ℤ

-- an `int` from an integer, modulo 2 ^ 32
pub s32 : ℤ → ℤ
s32 (pos n) = let m = n % 2 ^ 32 in if ltb m (2 ^ 31) then pos m else negsuc (2 ^ 32 - 1 - m)
s32 (negsuc n) = let m = n % 2 ^ 32 in if ltb m (2 ^ 31) then negsuc m else pos (2 ^ 32 - 1 - m)

-- wm_sem_create(pHandle, s32Num, s32IsShared, s32IsTimeRelative)
abbrev pub create : ℤ → Bool → Bool → Bool → M Sem (Unit {0})
create num = Lifecycle.create (record { cnt = pos 0 }) (λ s. record { cnt = num })

-- wm_sem_destroy(handle)
abbrev pub destroy : Bool → M Sem (Unit {0})
destroy = Lifecycle.destroy

-- The common text of `wm_sem_post` and `wm_sem_broadcast`: the call that wakes, made only at 0,
-- and what is added.
pub raise : Call → ℤ → Bool → M Sem (Unit {0})
raise wake num has_handle = do
  chk_arg_re (not has_handle) minus_one
  chk_fun_re mutex_lock minus_one
  cnt ← gets (λ (s : Sem). s.cnt)
  (if is_zero cnt then chk_fun_re wake minus_one else pure tt)
  modify (λ s. record s { cnt = s32 (s.cnt +ℤ num) })
  raised ← gets (λ (s : Sem). s.cnt)
  chk_arg_re (is_neg raised) minus_one
  chk_fun_re mutex_unlock minus_one
  return (pos 0)

-- wm_sem_post(handle)
pub post : Bool → M Sem (Unit {0})
unfolding raise
post = raise cond_signal (pos 1)

-- wm_sem_broadcast(handle, s32Num)
pub broadcast : ℤ → Bool → M Sem (Unit {0})
unfolding raise
broadcast = raise cond_broadcast

-- !(cnt <= 0)
abbrev pub is_free : Sem → Bool
is_free s = not (is_neg s.cnt || is_zero s.cnt)

-- cnt--
abbrev pub take_one : Sem → Sem
take_one s = record s { cnt = s.cnt -ℤ pos 1 }

-- wm_sem_wait(handle, ulMilsecond)
pub wait : ℕ → Bool → ℕ → M Sem (Unit {0})
wait = Wait.wait is_free take_one

-- wm_sem_getvalue(handle, ps32Val); what is written through `ps32Val` is the world's `out`.
pub getvalue : Bool → Bool → M Sem (Unit {0})
getvalue has_handle has_val = do
  chk_arg_re (not has_handle || not has_val) minus_one
  chk_fun_re mutex_lock minus_one
  cnt ← gets (λ (s : Sem). s.cnt)
  set_out (some cnt)
  chk_fun_re mutex_unlock minus_one
  return (pos 0)
