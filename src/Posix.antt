-- ===== src/Posix.antt =====
-- A C function that calls the system: it reads and writes one shared object, makes calls whose
-- codes come from outside, and leaves by `return` or by `goto`. The system is a parameter: what
-- each call returns, and what other threads have left in the object when a wait ends, is any
-- function of the calls made so far, that wait included.
pub mod Macros
pub mod Time
pub mod Ledger
pub mod Rules
pub mod Quiet
use wkc.Common.{ℕ, ℤ, List, ◌∷◌, Option, none}

pub data Clock : Type 0 where
  realtime monotonic : Clock

-- `struct timespec`
pub record Timespec : Type 0 where
  pub sec : ℕ
  pub nsec : ℕ

-- The calls of project/ipc/evt.c and project/ipc/wm_sem.c into libc and pthread.
pub data Call : Type 0 where
  calloc free mutex_init mutex_lock mutex_unlock mutex_destroy : Call
  cond_init cond_destroy cond_signal cond_broadcast cond_wait : Call
  cond_timedwait : Timespec → Call
  condattr_init condattr_destroy condattr_getclock clock_gettime : Call
  setpshared_shared setpshared_private : Call
  setclock : Clock → Call

-- The calls made so far, the latest first, each with the code that it returned. `calloc` returns
-- its address.
abbrev pub Log : Type 0
Log = List (Call × ℤ)

module _ (S : Type 0) where
  pub record Env : Type 0 where
    pub answer : Log → Call → ℤ
    pub resume : Log → S → S
    pub now : Log → Timespec

  -- `out` is what the function has written through its handle argument.
  pub record World : Type 0 where
    pub object : S
    pub log : Log
    pub out : Option ℤ

-- The labels of the functions that clean up on the way out.
pub data Label : Type 0 where
  err_exit1 err_exit2 err_exit3 err_exit4 : Label

-- How a piece of a function ends. `stuck` says that a loop used up its fuel.
pub data Exit (A : Type 0) : Type 0 where
  next : A → Exit A
  done : ℤ → Exit A
  goto : Label → Exit A
  stuck : Exit A

abbrev pub M : Type 0 → Type 0 → Type 0
M S A = Env S → World S → Exit A × World S

module _ {S A B : Type 0} where
  abbrev pub proceed : Exit A × World S → (A → M S B) → Env S → Exit B × World S
  proceed (next a, w) f env = f a env w
  proceed (done r, w) f env = (done r, w)
  proceed (goto l, w) f env = (goto l, w)
  proceed (stuck, w) f env = (stuck, w)

  infixl 5 ◌>>=◌ ◌>>◌
  abbrev pub ◌>>=◌ : M S A → (A → M S B) → M S B
  ◌>>=◌ m f env w = proceed (m env w) f env

  abbrev pub ◌>>◌ : M S A → M S B → M S B
  m >> k = m >>= λ _. k

module _ {S : Type 0} where
  abbrev pub pure : {A : Type 0} → A → M S A
  pure a env w = (next a, w)

  abbrev pub return : {A : Type 0} → ℤ → M S A
  return r env w = (done r, w)

  abbrev pub jump : {A : Type 0} → Label → M S A
  jump l env w = (goto l, w)

  abbrev pub diverge : {A : Type 0} → M S A
  diverge env w = (stuck, w)

  abbrev pub gets : {A : Type 0} → (S → A) → M S A
  gets f env w = (next (f w.object), w)

  abbrev pub modify : (S → S) → M S (Unit {0})
  modify f env w = (next tt, record w { object = f w.object })

  abbrev pub set_out : Option ℤ → M S (Unit {0})
  set_out p env w = (next tt, record w { out = p })

  -- Makes a call and takes its code.
  abbrev pub call : Call → M S ℤ
  call c env w = (next (env.answer w.log c), record w { log = (c, env.answer w.log c) ∷ w.log })

  -- A wait on the condition variable gives the mutex up and takes it again: the object is then as
  -- the other threads have left it.
  abbrev pub wait_call : Call → M S ℤ
  wait_call c env w = (
    next (env.answer w.log c),
    record w {
      log = (c, env.answer w.log c) ∷ w.log;
      object = env.resume ((c, env.answer w.log c) ∷ w.log) w.object;
    },
  )

  abbrev pub time_now : M S Timespec
  time_now env w = (next (env.now w.log), w)
