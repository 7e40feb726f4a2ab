-- ===== src/Sem/Taken.antt =====
-- `wm_sem_wait`: what it takes, and a post taken back by a wait.
use wkc.Common.{
  ℕ, zero, suc, ◌+◌, ◌<◌, ◌^◌, ℤ, pos, negsuc, minus_one, is_zero, is_neg, ◌+ℤ◌, ◌-ℤ◌, ◌≡◌, refl,
  sym, ap, ◌∙◌, ◌⊎◌, inl, inr, true, false, not, ◌||◌, arith,
}
use wkc.Posix.{Log, mutex_lock, mutex_unlock, cond_signal, Env, World, Exit, done, stuck}
use wkc.Posix.Ledger.{held}
use wkc.Wait
use wkc.Wait.{wait_ready, wait_any, forever}
use wkc.Wait.Result.{wait-Outcome}
use wkc.Wait.Unlocked.{GivesUp, wait-GivesUp}
use wkc.Sem.{Sem, s32, post, wait, is_free, take_one}

-- What a wait with a handle may end with. `reached` is the semaphore when the loop ended.
abbrev pub TakeOutcome : World Sem → Exit (Unit {0}) × World Sem → Type 0
TakeOutcome reached (x, w') =
    ((x ≡ done (pos 0))
      × ((n : ℕ) × (reached.object.cnt ≡ pos (suc n)) × (w'.object.cnt ≡ pos n))
      × (held w'.log ≡ false))
    ⊎ (((x ≡ done minus_one)
          × ((w'.object ≡ reached.object) ⊎ (held w'.log ≡ held reached.log))
          × GivesUp w'.log)
        ⊎ (x ≡ stuck))

free-is_pos :
    (s : Sem) → is_free s ≡ true → (n : ℕ) × (s.cnt ≡ pos (suc n)) × ((take_one s).cnt ≡ pos n)
unfolding ◌-ℤ◌
free-is_pos s h = of_cnt s.cnt h
  where
    of_cnt :
        (c : ℤ)
        → not (is_neg c || is_zero c) ≡ true
        → (n : ℕ) × (c ≡ pos (suc n)) × (c -ℤ pos 1 ≡ pos n)
    of_cnt (pos zero) h = cc h
    of_cnt (pos (suc n)) h = (n, refl, ground arith)
    of_cnt (negsuc n) h = cc h

pub wait-TakeOutcome :
    (fuel ms : ℕ) (env : Env Sem) (w : World Sem)
    → held w.log ≡ false
    → TakeOutcome (wait_ready is_free fuel ms env w).1 (wait fuel true ms env w)
unfolding wait
wait-TakeOutcome fuel ms env w free_mutex = elim (wait-Outcome is_free take_one env fuel ms w) [
  | inl (zero_, free, taken, up) ↦
      let (n, before, after) = free-is_pos _ free in
      inl (zero_, (n, before, ap (λ (s : Sem). s.cnt) taken ∙ after), up)
  | inr (inl (failed, left)) ↦
      inr (inl (failed, left, wait-GivesUp is_free take_one env fuel ms w free_mutex failed))
  | inr (inr out_of_fuel) ↦ inr (inr out_of_fuel)
]

-- The calls succeed that a post and an untimed wait make.
pub record IsSmooth (env : Env Sem) : Type 0 where
  pub lock : (log : Log) → env.answer log mutex_lock ≡ pos 0
  pub unlock : (log : Log) → env.answer log mutex_unlock ≡ pos 0
  pub wake : (log : Log) → env.answer log cond_signal ≡ pos 0

pub pos_sub_one : (n : ℕ) → pos (suc n) -ℤ pos 1 ≡ pos n
unfolding ◌-ℤ◌
pos_sub_one n = ground arith

pub pos_add_one : (n : ℕ) → n + 1 < 2 ^ 31 → s32 (pos n +ℤ pos 1) ≡ pos (n + 1)
unfolding ◌+ℤ◌ s32
pos_add_one n h = ground arith

post_smooth :
    (n : ℕ) (env : Env Sem) (w : World Sem)
    → w.object.cnt ≡ pos n
    → n + 1 < 2 ^ 31
    → IsSmooth env
    → ((post true env w).0 ≡ done (pos 0)) × ((post true env w).1.object.cnt ≡ pos (n + 1))
unfolding post
post_smooth zero env w e small smooth =
    rw (smooth.lock, e, smooth.wake, pos_add_one 0 small, smooth.unlock) (refl, refl)
post_smooth (suc n) env w e small smooth =
    rw (smooth.lock, e, pos_add_one (suc n) small) (rw smooth.unlock (refl, refl))

wait_smooth :
    (n fuel : ℕ) (env : Env Sem) (w : World Sem)
    → w.object.cnt ≡ pos (suc n)
    → IsSmooth env
    → ((wait (suc fuel) true forever env w).0 ≡ done (pos 0))
      × ((wait (suc fuel) true forever env w).1.object.cnt ≡ pos n)
unfolding wait Wait.wait wait_ready wait_any
wait_smooth n fuel env w e smooth = rw (smooth.lock, e, smooth.unlock) (refl, pos_sub_one n)

-- Where every call succeeds and the counter is not negative and below the largest `int`, a post
-- returns 0 and adds one, and an untimed wait after it returns 0 at once and takes the one back.
pub wait-post :
    (n fuel : ℕ) (env : Env Sem) (w : World Sem)
    → w.object.cnt ≡ pos n
    → n + 1 < 2 ^ 31
    → IsSmooth env
    → ((post true env w).0 ≡ done (pos 0))
      × ((post true env w).1.object.cnt ≡ pos (n + 1))
      × ((wait (suc fuel) true forever env (post true env w).1).0 ≡ done (pos 0))
      × ((wait (suc fuel) true forever env (post true env w).1).1.object.cnt ≡ w.object.cnt)
wait-post n fuel env w e small smooth =
    let (returned, raised) = post_smooth n env w e small smooth in
    let (through, taken) =
      wait_smooth n fuel env (post true env w).1 (raised ∙ ap pos (omega arith)) smooth in
    (returned, raised, through, taken ∙ sym e)
