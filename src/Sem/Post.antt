-- ===== src/Sem/Post.antt =====
-- `wm_sem_post`, `wm_sem_broadcast` and `wm_sem_getvalue` on every path.
use wkc.Common.{
  ◌≤◌, ◌<◌, ◌^◌, ℤ, pos, pos_part, neg_part, minus_one, is_zero, is_neg, ◌+ℤ◌, ◌≡◌, refl, ◌⊎◌, inl,
  inr, Bool, true, false, some, arith, Bool-cases,
}
use wkc.Posix.{Log, mutex_lock, cond_broadcast, Env, World, Exit, done}
use wkc.Posix.Ledger.{held}
use wkc.Sem.{Sem, s32, post, broadcast, getvalue}

-- an integer that an `int` holds
abbrev pub InRange : ℤ → Type 0
InRange a = (pos_part a < 2 ^ 31) × (neg_part a ≤ 2 ^ 31)

pub s32_lem : (a : ℤ) → InRange a → s32 a ≡ a
unfolding s32
s32_lem a h = ground arith

-- The counter is raised and not below zero, and the mutex is given up.
pub record IsRaised (num : ℤ) (w w' : World Sem) : Type 0 where
  pub raised : w'.object.cnt ≡ s32 (w.object.cnt +ℤ num)
  pub not_neg : is_neg w'.object.cnt ≡ false
  pub given_up : held w'.log ≡ false

abbrev pub Outcome : ℤ → World Sem → Exit (Unit {0}) × World Sem → Type 0
Outcome num w (x, w') =
    ((x ≡ done (pos 0)) × IsRaised num w w')
    ⊎ ((x ≡ done minus_one)
        × ((held w'.log ≡ true) ⊎ ((w'.object ≡ w.object) × (held w'.log ≡ held w.log))))

-- Whatever the system answers, `wm_sem_post` returns 0 or -1. With 0 the counter is one more, as
-- an `int` wraps, and not below zero, and the mutex is given up. With -1 the semaphore and the
-- mutex are as they were, or the function left with the mutex.
pub post-Outcome :
    (has_handle : Bool) (env : Env Sem) (w : World Sem) → Outcome (pos 1) w (post has_handle env w)
unfolding post
post-Outcome has_handle env w = ground arith

-- Whatever the system answers, `wm_sem_broadcast` of any `num` returns 0 or -1. With 0 the counter
-- is `num` more, as an `int` wraps, and not below zero, and the mutex is given up. With -1 the
-- semaphore and the mutex are as they were, or the function left with the mutex.
pub broadcast-Outcome :
    (num : ℤ) (has_handle : Bool) (env : Env Sem) (w : World Sem)
    → Outcome num w (broadcast num has_handle env w)
unfolding broadcast
broadcast-Outcome num has_handle env w = ground arith

-- Where the mutex is taken and the wake-up succeeds, a broadcast that takes the counter to a
-- negative `int` returns -1 with the counter so changed and the mutex not given up.
pub broadcast-keeps_mutex :
    (num : ℤ) (env : Env Sem) (w : World Sem)
    → ((log : Log) → env.answer log mutex_lock ≡ pos 0)
    → ((log : Log) → env.answer log cond_broadcast ≡ pos 0)
    → InRange (w.object.cnt +ℤ num)
    → is_neg (w.object.cnt +ℤ num) ≡ true
    → ((broadcast num true env w).0 ≡ done minus_one)
      × ((broadcast num true env w).1.object.cnt ≡ w.object.cnt +ℤ num)
      × (held (broadcast num true env w).1.log ≡ true)
unfolding broadcast
broadcast-keeps_mutex num env w lock wake range neg = elim (Bool-cases (is_zero w.object.cnt)) [
  | inl empty ↦ rw (lock, empty, wake, s32_lem (w.object.cnt +ℤ num) range, neg) (refl, refl, refl)
  | inr raised ↦ rw (lock, raised, s32_lem (w.object.cnt +ℤ num) range, neg) (refl, refl, refl)
]

-- With both pointers given and whatever the system answers, `wm_sem_getvalue` leaves the semaphore
-- as it was and returns 0 or -1; with 0 it has written the counter and given the mutex up.
pub getvalue-Outcome :
    (env : Env Sem) (w : World Sem)
    → let (x, w') = getvalue true true env w in
      (w'.object ≡ w.object)
      × (((x ≡ done (pos 0)) × (w'.out ≡ some w.object.cnt) × (held w'.log ≡ false))
          ⊎ (x ≡ done minus_one))
unfolding getvalue
getvalue-Outcome env w = ground arith
