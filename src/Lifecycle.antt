-- ===== src/Lifecycle.antt =====
-- How evt.c and wm_sem.c make and unmake an object: `evt_mtx_create`, `evt_rw_create` and
-- `wm_sem_create` are one text but for the counter that the last one stores, and so are the three
-- functions that destroy.
mod Cond
pub mod Create
pub mod Destroy
use wkc.Common.{ℤ, pos, negsuc, minus_one, is_zero, Bool, not, ◌||◌, some, if◌then◌else◌}
use wkc.Posix.{
  Call, calloc, free, mutex_init, mutex_lock, mutex_unlock, mutex_destroy, cond_init, cond_destroy,
  condattr_init, condattr_destroy, setpshared_shared, setpshared_private, setclock, realtime,
  monotonic, Env, World, Label, err_exit1, err_exit2, err_exit3, err_exit4, Exit, next, done, goto,
  stuck, M, ◌>>=◌, ◌>>◌, pure, return, modify, set_out, call,
}
use wkc.Posix.Macros.{chk_arg_re, chk_fun_re, chk_fun_gt}

module _ {S : Type 0} where
  -- A body with labels: a `goto` goes on at its label.
  abbrev pub landed : {A : Type 0} → Exit A × World S → (Label → M S A) → Env S → Exit A × World S
  landed (next a, w) h env = (next a, w)
  landed (done r, w) h env = (done r, w)
  landed (goto l, w) h env = h l env w
  landed (stuck, w) h env = (stuck, w)

  -- The end of the three functions, from each label down.
  pub from_exit1 : M S (Unit {0})
  from_exit1 = do call free; return minus_one

  pub from_exit2 : M S (Unit {0})
  unfolding from_exit1
  from_exit2 = do call mutex_destroy; from_exit1

  pub from_exit3 : M S (Unit {0})
  unfolding from_exit2
  from_exit3 = do call condattr_destroy; from_exit2

  pub from_exit4 : M S (Unit {0})
  unfolding from_exit3
  from_exit4 = do call cond_destroy; from_exit3

  pub clean_up : Label → M S (Unit {0})
  unfolding from_exit4
  clean_up err_exit1 = from_exit1
  clean_up err_exit2 = from_exit2
  clean_up err_exit3 = from_exit3
  clean_up err_exit4 = from_exit4

  -- The condition variable, only if one of the two flags asks for it.
  pub make_cond : Bool → Bool → M S (Unit {0})
  make_cond shared relative =
      if shared || relative
      then (do
        chk_fun_gt condattr_init err_exit2
        (if shared
            then chk_fun_gt setpshared_shared err_exit3
            else chk_fun_gt setpshared_private err_exit3)
        (if relative
            then chk_fun_gt (setclock monotonic) err_exit3
            else chk_fun_gt (setclock realtime) err_exit3)
        chk_fun_gt cond_init err_exit3)
      else pure tt

  -- `zeroed` is the object that `calloc` gives, and `store` the assignments before the handle is
  -- written; `has_handle` says that the caller's pointer is not NULL.
  pub make : S → (S → S) → Bool → Bool → Bool → M S (Unit {0})
  unfolding make_cond
  make zeroed store has_handle shared relative = do
    chk_arg_re (not has_handle) minus_one
    p ← call calloc
    chk_arg_re (is_zero p) minus_one
    modify (λ _. zeroed)
    chk_fun_gt mutex_init err_exit1
    chk_fun_gt mutex_lock err_exit2
    make_cond shared relative
    modify store
    set_out (some p)
    chk_fun_gt mutex_unlock err_exit4
    return (pos 0)

  unfoldable pub create : S → (S → S) → Bool → Bool → Bool → M S (Unit {0})
  unfolding make clean_up
  create zeroed store has_handle shared relative env w =
      landed (make zeroed store has_handle shared relative env w) clean_up env

  unfoldable pub destroy : Bool → M S (Unit {0})
  destroy has_handle = do
    chk_arg_re (not has_handle) minus_one
    chk_fun_re mutex_lock minus_one
    chk_fun_re cond_destroy minus_one
    chk_fun_re condattr_destroy minus_one
    chk_fun_re mutex_unlock minus_one
    chk_fun_re mutex_destroy minus_one
    call free
    return (pos 0)
