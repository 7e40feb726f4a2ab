-- ===== src/Epoll/Timer.antt =====
-- `wm_epoll_timer_set` and `wm_epoll_timer_open`, with the division and the remainder of C, which
-- round towards zero.
use wkc.Common.{
  ℕ, suc, ◌+◌, ◌*◌, ◌/◌, ◌%◌, ◌<◌, ℤ, pos, negsuc, minus_one, is_zero, eqb_ℤ, ◌-ℤ◌, ◌≡◌, refl, true,
  Bool-cases, ◌⊎◌, inl, inr, ◌∷◌, arith, if◌then◌else◌, pos_part, neg_part,
}
use wkc.Epoll.{
  EventList, Itimerspec, timerfd_create, timerfd_settime, signalfd, sigprocmask, Env, World, say,
}

-- -(n), from a natural number
abbrev negate : ℕ → ℤ
negate n = pos 0 -ℤ pos n

-- ms / 1000
pub seconds : ℤ → ℤ
seconds (pos n) = pos (n / 1000)
seconds (negsuc n) = negate (suc n / 1000)

-- (ms % 1000) * 1000 * 1000
pub nanoseconds : ℤ → ℤ
nanoseconds (pos n) = pos (n % 1000 * 1000 * 1000)
nanoseconds (negsuc n) = negate (suc n % 1000 * 1000 * 1000)

abbrev pub spec_of : ℤ → ℤ → Itimerspec
spec_of ms_delay ms_interval = record {
  interval_sec = seconds ms_interval;
  interval_nsec = nanoseconds ms_interval;
  value_sec = seconds ms_delay;
  value_nsec = nanoseconds ms_delay;
}

is_minus_one : (a : ℤ) → eqb_ℤ a minus_one ≡ true → a ≡ minus_one
is_minus_one a h = ground arith

module _ (l : EventList) (env : Env l) where
  -- wm_epoll_timer_set(fd, ms_delay, ms_interval)
  pub timer_set : ℤ → ℤ → ℤ → World l → ℤ × World l
  timer_set fd ms_delay ms_interval w =
      let c = timerfd_settime fd (spec_of ms_delay ms_interval) in
      ((if is_zero (env.answer w.log c) then pos 0 else minus_one), say l env c w)

  -- wm_epoll_timer_open(ms_delay, ms_interval)
  pub timer_open : ℤ → ℤ → World l → ℤ × World l
  timer_open ms_delay ms_interval w =
      let fd = env.answer w.log timerfd_create in
      let w1 = say l env timerfd_create w in
      if eqb_ℤ fd minus_one
      then (minus_one, w1)
      else (let (ret, w2) = timer_set fd ms_delay ms_interval w1 in
          if is_zero ret then (fd, w2) else (minus_one, w2))

  -- wm_epoll_signal_open(sig_num)
  pub signal_open : ℤ → World l → ℤ × World l
  signal_open sig_num w =
      let fd = env.answer w.log (signalfd sig_num) in
      let w1 = say l env (signalfd sig_num) w in
      if eqb_ℤ fd minus_one then (minus_one, w1) else (fd, say l env (sigprocmask sig_num) w1)

  -- `wm_epoll_timer_set` of a delay and an interval that are not negative makes one call, with the
  -- two times to the nanosecond and each count of nanoseconds below a second; it returns 0 if the
  -- call does, and -1 otherwise.
  pub timer_set-exact :
      (fd : ℤ) (delay interval : ℕ) (w : World l)
      → let (x, w') = timer_set fd (pos delay) (pos interval) w in
        (spec : Itimerspec) × (w'.log
          ≡ (timerfd_settime fd spec, env.answer w.log (timerfd_settime fd spec)) ∷ w.log)
        × (pos_part spec.value_sec * 1000000000 + pos_part spec.value_nsec ≡ delay * 1000000)
        × (pos_part spec.interval_sec * 1000000000 + pos_part spec.interval_nsec
            ≡ interval * 1000000)
        × ((pos_part spec.value_nsec < 1000000000) × (pos_part spec.interval_nsec < 1000000000))
        × ((neg_part spec.value_sec + neg_part spec.value_nsec ≡ 0)
            × (neg_part spec.interval_sec + neg_part spec.interval_nsec ≡ 0))
        × (x ≡ (if is_zero (env.answer w.log (timerfd_settime fd spec)) then pos 0 else minus_one))
  unfolding timer_set seconds nanoseconds
  timer_set-exact fd delay interval w = (
    spec_of (pos delay) (pos interval),
    refl,
    omega arith,
    omega arith,
    (omega arith, omega arith),
    (refl, refl),
    refl,
  )

  -- Whatever the system answers, `wm_epoll_timer_open` returns the descriptor of the timer, which
  -- was then set; or -1, after no timer was made, or after the timer was made but not set: then
  -- its descriptor is not closed.
  pub timer_open-Outcome :
      (ms_delay ms_interval : ℤ) (w : World l)
      → let (x, w') = timer_open ms_delay ms_interval w in
        let fd = env.answer w.log timerfd_create in
        let set = timerfd_settime fd (spec_of ms_delay ms_interval) in
        ((x ≡ minus_one) × (fd ≡ minus_one) × (w'.log ≡ (timerfd_create, fd) ∷ w.log))
        ⊎ ((r : ℤ) × (w'.log ≡ (set, r) ∷ (timerfd_create, fd) ∷ w.log)
            × (x ≡ (if is_zero r then fd else minus_one)))
  unfolding timer_open timer_set
  timer_open-Outcome ms_delay ms_interval w =
      elim (Bool-cases (eqb_ℤ (env.answer w.log timerfd_create) minus_one)) [
        | inl refused ↦ rw refused (inl (refl, is_minus_one _ refused, refl))
        | inr made ↦
            elim (Bool-cases (
              is_zero (
                env.answer (say l env timerfd_create w).log (
                  timerfd_settime (env.answer w.log timerfd_create)
                    (spec_of ms_delay ms_interval))))) [
                      | inl set ↦ rw (made, set) (inr (_, refl, rw set refl))
                      | inr unset ↦ rw (made, unset) (inr (_, refl, rw unset refl))
                    ]
      ]

  -- Whatever the system answers, `wm_epoll_signal_open` returns -1 and blocks no signal, or
  -- returns the descriptor that the system gave and has asked for the signal to be blocked.
  pub signal_open-Outcome :
      (sig_num : ℤ) (w : World l)
      → let (x, w') = signal_open sig_num w in
        let fd = env.answer w.log (signalfd sig_num) in
        ((x ≡ minus_one) × (fd ≡ minus_one) × (w'.log ≡ (signalfd sig_num, fd) ∷ w.log))
        ⊎ ((x ≡ fd)
            × ((r : ℤ) × (w'.log ≡ (sigprocmask sig_num, r) ∷ (signalfd sig_num, fd) ∷ w.log)))
  unfolding signal_open
  signal_open-Outcome sig_num w =
      elim (Bool-cases (eqb_ℤ (env.answer w.log (signalfd sig_num)) minus_one)) [
        | inl refused ↦ rw refused (inl (refl, is_minus_one _ refused, refl))
        | inr made ↦ rw made (inr (refl, (_, refl)))
      ]
