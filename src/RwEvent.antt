-- ===== src/RwEvent.antt =====
-- project/ipc/evt.c, the event `evt_rw_t`: a writer sets a flag and wakes all the readers that
-- wait. The object is as a function finds it once it has the mutex. A wait loop takes fuel, one
-- unit for each wait.
pub mod Crowd
pub mod Write
pub mod Read
use wkc.Common.{
  is_pos, ◌+ℤ◌, ◌-ℤ◌, is_neg, ◌||◌, ℕ, zero, suc, ◌+◌, ◌-◌, ℤ, pos, minus_one, is_zero, eqb_ℤ, Bool,
  not, ◌&&◌, ◌==◌, if◌then◌else◌, ltb,
}
use wkc.Posix.{
  Call, mutex_lock, mutex_unlock, cond_broadcast, cond_wait, cond_timedwait, condattr_getclock,
  clock_gettime, Timespec, M, ◌>>=◌, ◌>>◌, pure, return, diverge, gets, modify, wait_call, time_now,
}
use wkc.Posix.Macros.{chk_arg_re, chk_fun_re}
use wkc.Posix.Time.{deadline}
use wkc.Lifecycle
use wkc.Wait.{forever, etimedout}

-- `evt_rw_t`, without the fields that only pthread reads
pub record EvtRw : Type 0 where
  pub rd : ℤ
  pub wr : ℕ

abbrev pub zeroed : EvtRw
zeroed = record { rd = pos 0; wr = 0 }

-- evt_rw_create(pHandle, s32IsShared, s32IsTimeRelative)
abbrev pub create : Bool → Bool → Bool → M EvtRw (Unit {0})
create = Lifecycle.create zeroed (λ e. e)

-- evt_rw_destroy(handle)
abbrev pub destroy : Bool → M EvtRw (Unit {0})
destroy = Lifecycle.destroy

-- evt_wr_broadcast(handle)
pub broadcast : Bool → M EvtRw (Unit {0})
broadcast has_handle = do
  chk_arg_re (not has_handle) minus_one
  chk_fun_re mutex_lock minus_one
  modify (λ e. record e { wr = 1 })
  rd ← gets (λ (e : EvtRw). e.rd)
  (if is_pos rd then chk_fun_re cond_broadcast minus_one else pure tt)
  chk_fun_re mutex_unlock minus_one
  return (pos 0)

-- evt_rd_reset(handle)
pub reset : Bool → M EvtRw (Unit {0})
reset has_handle = do
  chk_arg_re (not has_handle) minus_one
  chk_fun_re mutex_lock minus_one
  modify (λ e. record e { wr = 0 })
  chk_fun_re mutex_unlock minus_one
  return (pos 0)

-- the first branch of `evt_rd_wait`: look at the flag and take it, without waiting
pub poll : M EvtRw ℤ
poll = do
  wr ← gets (λ (e : EvtRw). e.wr)
  (if wr == 1 then (do modify (λ e. record e { wr = 0 }); pure (pos 0)) else pure minus_one)

-- One wait, counted among the readers while it lasts.
pub counted_wait : Call → M EvtRw ℤ
counted_wait c = do
  modify (λ e. record e { rd = e.rd +ℤ pos 1 })
  rc ← wait_call c
  modify (λ e. record e { rd = e.rd -ℤ pos 1 })
  pure rc

-- do … while (rc != 0)
pub read_any : ℕ → M EvtRw ℤ
read_any zero = diverge
read_any (suc fuel) =
    let rest = read_any fuel in
    do rc ← counted_wait cond_wait; (if is_zero rc then pure rc else rest)

-- do … while (rc != 0 && rc != ETIMEDOUT)
pub read_until : Timespec → ℕ → M EvtRw ℤ
read_until tp zero = diverge
read_until tp (suc fuel) =
    let rest = read_until tp fuel in
    do
      rc ← counted_wait (cond_timedwait tp)
      (if not (is_zero rc) && not (eqb_ℤ rc etimedout) then rest else pure rc)

-- the three branches of `evt_rd_wait`
pub read : ℕ → ℕ → M EvtRw ℤ
read fuel ms =
    if ms == 0
    then poll
    else (if ms == forever then read_any fuel else (do
      chk_fun_re condattr_getclock minus_one
      chk_fun_re clock_gettime minus_one
      tp ← time_now
      read_until (deadline tp ms) fuel))

-- evt_rd_wait(handle, ulMilsecond)
pub wait : ℕ → Bool → ℕ → M EvtRw (Unit {0})
wait fuel has_handle ms = do
  chk_arg_re (not has_handle) minus_one
  chk_fun_re mutex_lock minus_one
  rc ← read fuel ms
  chk_fun_re mutex_unlock minus_one
  return rc
