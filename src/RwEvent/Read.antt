-- ===== src/RwEvent/Read.antt =====
-- `evt_rd_wait`: what a poll takes, the count of readers, and what a waiting reader returns.
use wkc.Common.{
  is_pos, ◌+ℤ◌, ◌-ℤ◌, -ℤ_cancel, ap, ℕ, zero, suc, ℤ, pos, minus_one, is_zero, eqb_ℤ, ◌≡◌, ◌≢◌,
  refl, ◌∙◌, Bool, true, false, not, ◌&&◌, ◌∷◌, arith, ◌==◌, if◌then◌else◌, Bool-cases, inl, inr,
}
use wkc.Posix.{
  Call, Log, mutex_lock, mutex_unlock, cond_broadcast, cond_wait, cond_timedwait, condattr_getclock,
  clock_gettime, Timespec, Env, World, Exit, done,
}
use wkc.Posix.Ledger.{held}
use wkc.Posix.Rules.{after_re}
use wkc.Wait.Refused.{ne→==_false}
use wkc.Wait.{forever, etimedout}
use wkc.RwEvent.{EvtRw, broadcast, wait, read, read_any, read_until, counted_wait, poll, reset}

-- The calls succeed that no wait is about.
pub record IsSmooth (env : Env EvtRw) : Type 0 where
  pub lock : (log : Log) → env.answer log mutex_lock ≡ pos 0
  pub unlock : (log : Log) → env.answer log mutex_unlock ≡ pos 0
  pub wake : (log : Log) → env.answer log cond_broadcast ≡ pos 0
  pub has_clock : (log : Log) → env.answer log condattr_getclock ≡ pos 0
  pub has_time : (log : Log) → env.answer log clock_gettime ≡ pos 0

module _ (env : Env EvtRw) (smooth : IsSmooth env) where
  -- Where the calls succeed, a poll returns 0 and clears the flag if the flag is 1, and returns -1
  -- and leaves it otherwise; the readers are as they were and the mutex is given up.
  pub poll_lem :
      (fuel : ℕ) (w : World EvtRw)
      → ((wait fuel true 0 env w).0 ≡ (if w.object.wr == 1 then done (pos 0) else done minus_one))
        × ((wait fuel true 0 env w).1.object.wr ≡ (if w.object.wr == 1 then 0 else w.object.wr))
        × ((wait fuel true 0 env w).1.object.rd ≡ w.object.rd)
        × (held (wait fuel true 0 env w).1.log ≡ false)
  unfolding wait read poll
  poll_lem fuel w = elim (Bool-cases (w.object.wr == 1)) [
    | inl set ↦ rw (smooth.lock, set, smooth.unlock) (refl, refl, refl, refl)
    | inr unset ↦ rw (smooth.lock, unset, smooth.unlock) (refl, refl, refl, refl)
  ]

  pub broadcast_lem :
      (w : World EvtRw)
      → ((broadcast true env w).0 ≡ done (pos 0)) × ((broadcast true env w).1.object.wr ≡ 1)
  unfolding broadcast
  broadcast_lem w = elim (Bool-cases (is_pos w.object.rd)) [
    | inl positive ↦ rw (smooth.lock, positive, smooth.wake, smooth.unlock) (refl, refl)
    | inr nobody ↦ rw (smooth.lock, nobody, smooth.unlock) (refl, refl)
  ]

  abbrev polled : ℕ → World EvtRw → World EvtRw
  polled fuel w = (wait fuel true 0 env w).1

  -- Where the calls succeed, a broadcast is seen by one poll: the first after it returns 0, and
  -- the next -1.
  pub poll-broadcast :
      (fuel : ℕ) (w : World EvtRw)
      → ((wait fuel true 0 env (broadcast true env w).1).0 ≡ done (pos 0))
        × ((wait fuel true 0 env (polled fuel (broadcast true env w).1)).0 ≡ done minus_one)
  poll-broadcast fuel w = ground (
    arith,
    broadcast_lem w,
    poll_lem fuel (broadcast true env w).1,
    poll_lem fuel (polled fuel (broadcast true env w).1),
  )

  -- After a reset, where the calls succeed, the flag is 0 and a poll returns -1.
  pub poll-reset :
      (fuel : ℕ) (w : World EvtRw)
      → ((reset true env w).0 ≡ done (pos 0))
        × ((reset true env w).1.object.wr ≡ 0)
        × ((wait fuel true 0 env (reset true env w).1).0 ≡ done minus_one)
  unfolding reset wait read poll
  poll-reset fuel w =
      rw (smooth.lock, smooth.unlock) (rw (smooth.lock, smooth.unlock) (refl, refl, refl))

  -- Where the calls succeed and each wait is woken with 0, a reader that waits for ever returns 0,
  -- whatever the flag then is.
  pub wait_any_wakeup :
      (fuel : ℕ) (w : World EvtRw)
      → ((log : Log) → env.answer log cond_wait ≡ pos 0)
      → (wait (suc fuel) true forever env w).0 ≡ done (pos 0)
  unfolding wait read read_any counted_wait
  wait_any_wakeup fuel w woken = rw (smooth.lock, woken, smooth.unlock) refl

  -- Where the calls succeed and each timed wait ends at its deadline, a reader that waits neither
  -- for ever nor for no time at all returns ETIMEDOUT.
  pub wait_times_out :
      (fuel ms : ℕ) (w : World EvtRw)
      → ms ≢ 0
      → ms ≢ forever
      → ((log : Log) (tp : Timespec) → env.answer log (cond_timedwait tp) ≡ etimedout)
      → (wait (suc fuel) true ms env w).0 ≡ done etimedout
  unfolding wait read read_until counted_wait
  wait_times_out fuel ms w positive timed late =
      rw
        (
          smooth.lock,
          ne→==_false ms 0 positive,
          ne→==_false ms forever timed,
          smooth.has_clock,
          smooth.has_time,
          late,
          smooth.unlock,
        )
        refl

module _ (env : Env EvtRw) (others : (log : Log) (e : EvtRw) → (env.resume log e).rd ≡ e.rd) where
  counted_wait-rd : (c : Call) (w : World EvtRw) → (counted_wait c env w).1.object.rd ≡ w.object.rd
  unfolding counted_wait
  counted_wait-rd c w =
      ap (λ (r : ℤ). r -ℤ pos 1)
        (others ((c, env.answer w.log c) ∷ w.log)
          (record { rd = w.object.rd +ℤ pos 1; wr = w.object.wr }))
      ∙ -ℤ_cancel w.object.rd (pos 1)

  read_any-rd : (fuel : ℕ) (w : World EvtRw) → (read_any fuel env w).1.object.rd ≡ w.object.rd
  unfolding read_any counted_wait
  read_any-rd zero w = refl
  read_any-rd (suc fuel) w = elim (Bool-cases (is_zero (env.answer w.log cond_wait))) [
    | inl woken ↦ rw woken (counted_wait-rd cond_wait w)
    | inr failed ↦
        rw failed (read_any-rd fuel (counted_wait cond_wait env w).1 ∙ counted_wait-rd cond_wait w)
  ]

  abbrev again : ℤ → Bool
  again rc = not (is_zero rc) && not (eqb_ℤ rc etimedout)

  read_until-rd :
      (tp : Timespec) (fuel : ℕ) (w : World EvtRw)
      → (read_until tp fuel env w).1.object.rd ≡ w.object.rd
  unfolding read_until counted_wait
  read_until-rd tp zero w = refl
  read_until-rd tp (suc fuel) w = elim (Bool-cases (again (env.answer w.log (cond_timedwait tp)))) [
    | inl on ↦ rw on (
        read_until-rd tp fuel (counted_wait (cond_timedwait tp) env w).1
        ∙ counted_wait-rd (cond_timedwait tp) w)
    | inr out ↦ rw out (counted_wait-rd (cond_timedwait tp) w)
  ]

  abbrev Keeps : World EvtRw → Exit ℤ × World EvtRw → Type 0
  Keeps w (x, w') = w'.object.rd ≡ w.object.rd

  read-rd : (fuel ms : ℕ) (w : World EvtRw) → (read fuel ms env w).1.object.rd ≡ w.object.rd
  unfolding read poll
  read-rd fuel ms w = elim (Bool-cases (ms == 0)) [
    | inl now ↦ elim (Bool-cases (w.object.wr == 1)) [
      | inl set ↦ rw (now, set) refl
      | inr unset ↦ rw (now, unset) refl
    ]
    | inr later ↦ elim (Bool-cases (ms == forever)) [
      | inl always ↦ rw (later, always) (read_any-rd fuel w)
      | inr timed ↦
          rw (later, timed)
            (after_re (Keeps w) _ env _ _ _
              (λ r z. after_re (Keeps w) _ env _ _ _ (λ s y. read_until-rd _ fuel _) (λ s y. refl))
              (λ r z. refl))
    ]
  ]

  -- If the other threads have left the count of readers as it was whenever a wait ends, so has
  -- `evt_rd_wait`, whatever it returns and whatever the system answers.
  pub wait-rd :
      (fuel ms : ℕ) (has_handle : Bool) (w : World EvtRw)
      → (wait fuel has_handle ms env w).1.object.rd ≡ w.object.rd
  unfolding wait
  wait-rd fuel ms has_handle w = ground (
    arith,
    read-rd fuel ms (record w { log = (mutex_lock, env.answer w.log mutex_lock) ∷ w.log }),
  )
